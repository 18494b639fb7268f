-- ===== src/Observability/Metrics/History.antt =====
-- The history of closed sessions: a ring of 128 entries that keeps the latest.
use modern_cpp_room_server.Prelude.{
  ℕ, zero, suc, ◌+◌, ◌-◌, ◌%◌, ◌^◌, ◌≤◌, ◌<◌, ◌≡◌, refl, sym, ap, ap₂, ◌∙◌, ◌≢◌, ◌⊎◌, inr, List, [],
  ◌∷◌, ◌++◌, length, drop, length-append, length-drop, drop-append_of_le, drop-drop, get_or,
  get_or-set_self, get_or-set_ne, set, length-set, arith, add_size, sub_size,
}
use modern_cpp_room_server.Observability.Metrics.{
  SessionSnapshot, blank_snapshot, ServerMetrics, fresh_metrics, retire_session, recent_from,
  recent_closed_sessions,
}
use mathlib.Core.List.{append_assoc, append-nil}
use native.Mathlib.Decide.{dec_lt}

pub record IsValid (m : ServerMetrics) : Type 0 where
  pub full : length m.closed ≡ 128
  pub next_in : m.closed_next < 128
  pub count_in : m.closed_count ≤ 128

abbrev pub entry : ServerMetrics → ℕ → SessionSnapshot
entry m i = get_or m.closed (i % 128) blank_snapshot

abbrev entry_at : ServerMetrics → ℕ → ℕ → SessionSnapshot
entry_at m first index = get_or m.closed (add_size first index % 128) blank_snapshot

-- A walk that takes one entry more ends with the entry behind.
recent_from-suc :
    (m : ServerMetrics) (first left index : ℕ)
    → first + index + left < 2 ^ 63
    → recent_from m first (suc left) index
      ≡ recent_from m first left index ++ (entry m (first + index + left) ∷ [])
unfolding recent_from
recent_from-suc m first zero index h =
    ap (λ k. entry m k ∷ []) {x = add_size first index} {y = first + index + 0} (omega arith)
recent_from-suc m first (suc left) index h = ap (◌∷◌ (entry_at m first index)) (
    recent_from-suc m first left (index + 1) (omega arith)
    ∙ ap (λ k. recent_from m first left (index + 1) ++ (entry m k ∷ []))
        {x = first + (index + 1) + left} {y = first + index + suc left} (omega arith))

-- A walk that starts one entry on.
recent_from-next :
    (m : ServerMetrics) (first left index : ℕ)
    → first + index + left < 2 ^ 63
    → recent_from m ((first + 1) % 128) left index ≡ recent_from m first left (index + 1)
unfolding recent_from
recent_from-next m first zero index h = refl
recent_from-next m first (suc left) index h =
    ap₂ ◌∷◌
      (ap (λ k. get_or m.closed k blank_snapshot) {x = add_size ((first + 1) % 128) index % 128}
        {y = add_size first (index + 1) % 128} (omega arith))
      (recent_from-next m first left (index + 1) (omega arith))

-- A write at the slot `span` entries on from `first` leaves the walk of the entries before it alone.
recent_from-set :
    (m n : ServerMetrics) (k : ℕ) (s : SessionSnapshot) (first span left index : ℕ)
    → n.closed ≡ set m.closed k s
    → (first + span) % 128 ≡ k
    → first < 128
    → span ≤ 128
    → span < index + 128
    → index + left ≤ span
    → recent_from n first left index ≡ recent_from m first left index
unfolding recent_from
recent_from-set m n k s first span zero index e hk hf hs hi hl = refl
recent_from-set m n k s first span (suc left) index e hk hf hs hi hl =
    let apart : k ≢ add_size first index % 128 = omega arith in
    ap₂ ◌∷◌
      (ap (λ xs. get_or xs (add_size first index % 128) blank_snapshot) e
        ∙ get_or-set_ne m.closed k (add_size first index % 128) s blank_snapshot apart)
      (recent_from-set m n k s first span left (index + 1) e hk hf hs (omega arith) (omega arith))

abbrev start_of : ServerMetrics → ℕ
start_of m = sub_size (add_size m.closed_next 128) m.closed_count % 128

start_next : {m : ServerMetrics} → IsValid m → (start_of m + m.closed_count) % 128 ≡ m.closed_next
start_next v = omega arith

pub retire_session-IsValid :
    (s : SessionSnapshot) (m : ServerMetrics) → IsValid m → IsValid (retire_session s m)
unfolding retire_session
retire_session-IsValid s m v = ground (arith, length-set m.closed m.closed_next s)

-- The latest `n` of a list.
abbrev pub last_of {ℓ} : {A : Type ℓ} → ℕ → List A → List A
last_of n xs = drop (length xs - n) xs

length-recent_from :
    (m : ServerMetrics) (first left index : ℕ) → length (recent_from m first left index) ≡ left
unfolding recent_from
length-recent_from m first zero index = refl
length-recent_from m first (suc left) index = ap suc (length-recent_from m first left (index + 1))

pub length-recent_closed_sessions :
    (m : ServerMetrics) → length (recent_closed_sessions m) ≡ m.closed_count
unfolding recent_closed_sessions
length-recent_closed_sessions m = length-recent_from m (start_of m) m.closed_count 0

-- The metrics `n` after a closed session `s` was stored in the metrics `m`.
record Stored (s : SessionSnapshot) (m n : ServerMetrics) : Type 0 where
  slot : n.closed ≡ set m.closed m.closed_next s
  next : n.closed_next ≡ (m.closed_next + 1) % 128

Stored-entry :
    {s : SessionSnapshot} {m n : ServerMetrics} (i : ℕ)
    → IsValid m
    → Stored s m n
    → i % 128 ≡ m.closed_next
    → entry n i ≡ s
Stored-entry {s} {m} {n} i v h e =
    ap₂ (λ xs k. get_or xs k blank_snapshot) h.slot e
    ∙ get_or-set_self m.closed m.closed_next s blank_snapshot (omega arith)

Stored-append :
    {s : SessionSnapshot} {m n : ServerMetrics}
    → IsValid m
    → Stored s m n
    → m.closed_count < 128
    → n.closed_count ≡ suc m.closed_count
    → recent_closed_sessions n ≡ recent_closed_sessions m ++ (s ∷ [])
unfolding recent_closed_sessions
Stored-append {s} {m} {n} v h room e =
    let first = start_of m in
    let c = m.closed_count in
    let same : start_of n ≡ first = omega (arith, h.next) in
    ap₂ (λ f k. recent_from n f k 0) same e
    ∙ recent_from-suc n first c 0 (omega arith)
    ∙ ap₂ (λ xs x. xs ++ (x ∷ []))
        (recent_from-set m n m.closed_next s first c c 0 h.slot (start_next v) (omega arith)
          (omega arith) (omega arith) (omega arith))
        (Stored-entry (first + 0 + c) v h (omega arith))

Stored-replace :
    {s : SessionSnapshot} {m n : ServerMetrics}
    → IsValid m
    → Stored s m n
    → m.closed_count ≡ 128
    → n.closed_count ≡ 128
    → recent_closed_sessions n ≡ drop 1 (recent_closed_sessions m) ++ (s ∷ [])
unfolding recent_closed_sessions
Stored-replace {s} {m} {n} v h full e =
    let first = start_of m in
    let moved : start_of n ≡ (first + 1) % 128 = omega (arith, h.next) in
    ap₂ (λ f k. recent_from n f k 0) moved e
    ∙ recent_from-suc n ((first + 1) % 128) 127 0 (omega arith)
    ∙ ap₂ (λ xs x. xs ++ (x ∷ []))
        (recent_from-next n first 127 0 (omega arith)
          ∙ recent_from-set m n m.closed_next s first 128 127 (0 + 1) h.slot (omega arith)
              (omega arith) (omega arith) (omega arith) (omega arith)
          ∙ sym (ap (λ k. drop 1 (recent_from m first k 0)) full))
        (Stored-entry ((first + 1) % 128 + 0 + 127) v h (omega arith))

last_of_short {ℓ} : {A : Type ℓ} (n : ℕ) (xs : List A) → length xs ≤ n → last_of n xs ≡ xs
last_of_short n xs h = ap (λ k. drop k xs) {x = length xs - n} {y = 0} (omega arith)

-- Storing one closed session keeps the latest 128 of those reported before and the new one.
recent-retire_session :
    (s : SessionSnapshot) (m : ServerMetrics)
    → IsValid m
    → recent_closed_sessions (retire_session s m)
      ≡ last_of 128 (recent_closed_sessions m ++ (s ∷ []))
recent-retire_session s m v = elim (dec_lt m.closed_count 128) [
  | yes room ↦
      Stored-append v stored room (unfold retire_session in ground arith)
      ∙ sym (last_of_short 128 (recent_closed_sessions m ++ (s ∷ [])) (omega (arith, size)))
  | no full ↦
      Stored-replace v stored (omega arith) (unfold retire_session in ground arith)
      ∙ sym (
          ap (λ k. drop k (recent_closed_sessions m ++ (s ∷ []))) {y = 1} (omega (arith, size))
          ∙ drop-append_of_le 1 (recent_closed_sessions m) (s ∷ [])
              (omega (arith, length-recent_closed_sessions m)))
]
  where
    stored : Stored s m (retire_session s m)
    stored = record {
      slot = unfold retire_session in ground arith;
      next = unfold retire_session in ground arith;
    }

    size : length (recent_closed_sessions m ++ (s ∷ [])) ≡ m.closed_count + 1
    size =
        omega (
          arith,
          length-append (recent_closed_sessions m) (s ∷ []),
          length-recent_closed_sessions m,
        )

-- Sessions that are closed one after another.
unfoldable pub retire_all : List SessionSnapshot → ServerMetrics → ServerMetrics
retire_all [] m = m
retire_all (s ∷ ss) m = retire_all ss (retire_session s m)

last_of-append {ℓ} :
    {A : Type ℓ} (n : ℕ) (xs ys : List A) → last_of n (last_of n xs ++ ys) ≡ last_of n (xs ++ ys)
last_of-append n xs ys =
    let k = length xs - n in
    let sizes = length-append (drop k xs) ys in
    let cut : drop k (xs ++ ys) ≡ drop k xs ++ ys = drop-append_of_le k xs ys (omega arith) in
    ap (drop (length (drop k xs ++ ys) - n)) (sym cut)
    ∙ drop-drop (length (drop k xs ++ ys) - n) k (xs ++ ys)
    ∙ ap (λ j. drop j (xs ++ ys)) (omega (arith, sizes, length-append xs ys, length-drop k xs))

recent-retire_all :
    (ss : List SessionSnapshot) (m : ServerMetrics)
    → IsValid m
    → recent_closed_sessions (retire_all ss m) ≡ last_of 128 (recent_closed_sessions m ++ ss)
unfolding retire_all
recent-retire_all [] m v = rw (append-nil (recent_closed_sessions m)) (
    sym (
      last_of_short 128 (recent_closed_sessions m)
        (omega (arith, length-recent_closed_sessions m))))
recent-retire_all (s ∷ ss) m v =
    recent-retire_all ss (retire_session s m) (retire_session-IsValid s m v)
    ∙ ap (λ xs. last_of 128 (xs ++ ss)) (recent-retire_session s m v)
    ∙ last_of-append 128 (recent_closed_sessions m ++ (s ∷ [])) ss
    ∙ ap (last_of 128) (append_assoc (recent_closed_sessions m) (s ∷ []) ss)

retire_session-counts :
    (s : SessionSnapshot) (m : ServerMetrics)
    → IsValid m
    → m.closed_history_overwritten + 1 < 2 ^ 64
    → (m.closed_count < 128)
        × ((retire_session s m).closed_count ≡ m.closed_count + 1)
        × ((retire_session s m).closed_history_overwritten ≡ m.closed_history_overwritten)
      ⊎ (m.closed_count ≡ 128)
        × ((retire_session s m).closed_count ≡ 128)
        × ((retire_session s m).closed_history_overwritten ≡ m.closed_history_overwritten + 1)
unfolding retire_session
retire_session-counts s m v h = ground arith

overwritten-retire_all :
    (ss : List SessionSnapshot) (m : ServerMetrics)
    → IsValid m
    → (m.closed_count ≡ 128) ⊎ (m.closed_history_overwritten ≡ 0)
    → m.closed_history_overwritten + length ss < 2 ^ 64
    → (retire_all ss m).closed_history_overwritten
      ≡ m.closed_count + m.closed_history_overwritten + length ss - 128
unfolding retire_all
overwritten-retire_all [] m v full h = omega arith
overwritten-retire_all (s ∷ ss) m v full h =
    let counts = retire_session-counts s m v (omega arith) in
    overwritten-retire_all ss (retire_session s m) (retire_session-IsValid s m v)
      (omega (arith, counts)) (omega (arith, counts))
    ∙ omega (arith, counts)

fresh-IsValid : IsValid fresh_metrics
fresh-IsValid = omega arith

-- When fewer than 2^64 sessions are closed one after another, from new metrics on, a snapshot
-- reports the latest 128 of them in the order in which they were closed, and as overwritten all
-- that were closed before those.
pub recent_closed_sessions-retire_all :
    (ss : List SessionSnapshot)
    → length ss < 2 ^ 64
    → (recent_closed_sessions (retire_all ss fresh_metrics) ≡ last_of 128 ss)
      × ((retire_all ss fresh_metrics).closed_history_overwritten ≡ length ss - 128)
recent_closed_sessions-retire_all ss h = (
  recent-retire_all ss fresh_metrics fresh-IsValid ∙ ap (λ xs. last_of 128 (xs ++ ss)) start,
  overwritten-retire_all ss fresh_metrics fresh-IsValid (inr refl) (omega arith) ∙ omega arith,
)
  where
    start : recent_closed_sessions fresh_metrics ≡ []
    start = unfold recent_closed_sessions recent_from in refl
