-- ===== src/Observability/Json/Reads.antt =====
-- A reader of a session's JSON object, with the keys of its own, and what it reads of `write_session`.
use mathlib.Core.List.{append_assoc}
use modern_cpp_room_server.Prelude.{
  ℕ, ◌≡◌, refl, sym, ap, subst, ◌∙◌, false, ◌||◌, Option, none, some, List, [], ◌∷◌, ◌++◌, All,
  ◌==◌, ==_refl, if◌then◌else◌, arith,
}
use modern_cpp_room_server.Prelude.Text.{
  codes, decimal, span_digits, value, is_empty, Stops, span_digits-append, decimal-IsDigit,
  value-decimal, is_empty-decimal, is_padded, is_padded-decimal,
}
use modern_cpp_room_server.Observability.Metrics.{SessionSnapshot}
use modern_cpp_room_server.Observability.Json.{write_fields, session_fields, write_session}

abbrev pub bind {ℓ κ} : {A : Type ℓ} {B : Type κ} → Option A → (A → Option B) → Option B
bind none f = none
bind (some a) f = f a

-- What follows an expected text.
unfoldable pub expect : List ℕ → List ℕ → Option (List ℕ)
expect [] text = some text
expect (c ∷ cs) [] = none
expect (c ∷ cs) (d ∷ text) = if c == d then expect cs text else none

-- A decimal number, which has a digit and no needless zero.
unfoldable pub read_number : List ℕ → Option (ℕ × List ℕ)
read_number text =
    let (digits, rest) = span_digits text in
    if is_empty digits || is_padded digits then none else some (value digits 0, rest)

unfoldable pub read_fields : List (List ℕ) → List ℕ → Option (List ℕ × List ℕ)
unfolding expect read_number
read_fields [] text = some ([], text)
read_fields (name ∷ names) text = bind (expect name text) (λ behind.
    bind (read_number behind)
      (λ (n, rest). bind (read_fields names rest) (λ (values, last). some (n ∷ values, last))))

pub expect-append : (name rest : List ℕ) → expect name (name ++ rest) ≡ some rest
unfolding expect
expect-append [] rest = refl
expect-append (c ∷ name) rest = rw (==_refl c) (expect-append name rest)

read_number-decimal :
    (n : ℕ) (rest : List ℕ) → Stops rest → read_number (decimal n ++ rest) ≡ some (n, rest)
unfolding read_number
read_number-decimal n rest stops =
    rw
      (
        span_digits-append (decimal n) rest (decimal-IsDigit n) stops,
        is_empty-decimal n,
        is_padded-decimal n,
        value-decimal n,
      )
      refl

-- A name begins, and not with a digit.
abbrev pub IsName : List ℕ → Type 0
IsName name = (is_empty name ≡ false) × Stops name

name-Stops : (name rest : List ℕ) → IsName name → Stops (name ++ rest)
name-Stops [] rest h = ground (arith, h.0)
name-Stops (c ∷ name) rest h = h.1

abbrev pub names_of : List (List ℕ × ℕ) → List (List ℕ)
names_of [] = []
names_of ((name, n) ∷ fields) = name ∷ names_of fields

abbrev pub values_of : List (List ℕ × ℕ) → List ℕ
values_of [] = []
values_of ((name, n) ∷ fields) = n ∷ values_of fields

pub fields-Stops :
    (fields : List (List ℕ × ℕ)) (rest : List ℕ)
    → All IsName (names_of fields)
    → Stops rest
    → Stops (write_fields fields ++ rest)
unfolding write_fields
fields-Stops [] rest h stops = stops
fields-Stops ((name, n) ∷ fields) rest h stops =
    subst Stops (sym (append_assoc name (decimal n ++ write_fields fields) rest))
      (name-Stops name ((decimal n ++ write_fields fields) ++ rest) (h.0))

pub read_fields-write_fields :
    (fields : List (List ℕ × ℕ)) (rest : List ℕ)
    → All IsName (names_of fields)
    → Stops rest
    → read_fields (names_of fields) (write_fields fields ++ rest) ≡ some (values_of fields, rest)
unfolding read_fields write_fields
read_fields-write_fields [] rest h stops = refl
read_fields-write_fields ((name, n) ∷ fields) rest h stops =
    let names = names_of fields in
    subst (λ text. read_fields (name ∷ names) text ≡ some (n ∷ values_of fields, rest))
      (sym (
        append_assoc name (decimal n ++ write_fields fields) rest
        ∙ ap (λ t. name ++ t) (append_assoc (decimal n) (write_fields fields) rest)))
      (rw
        (
          expect-append name (decimal n ++ (write_fields fields ++ rest)),
          read_number-decimal n (write_fields fields ++ rest)
              (fields-Stops fields rest (h.1) stops),
          read_fields-write_fields fields rest (h.1) stops,
        )
        refl)

abbrev session_of : List ℕ → Option SessionSnapshot
session_of (a ∷ b ∷ c ∷ d ∷ e ∷ f ∷ g ∷ h ∷ i ∷ j ∷ []) = some (record {
  session_id = a;
  posted_jobs = b;
  posted_bytes = c;
  queued_packets = d;
  queued_bytes = e;
  inflight_packets = f;
  inflight_bytes = g;
  posted_peak_bytes = h;
  queue_peak_bytes = i;
  inflight_peak_bytes = j;
})
session_of _ = none

-- The keys of a JSON object as they stand in its text: quoted, a colon behind, and a comma before all
-- but the first.
abbrev pub labels : List ℕ → List (List ℕ) → List (List ℕ)
labels opening [] = []
labels opening (key ∷ keys) =
    (opening ++ (codes "\"" ++ (key ++ codes "\":"))) ∷ labels (codes ",") keys

abbrev session_labels : List (List ℕ)
session_labels = labels (codes "{") (
    codes "session_id"
    ∷ codes "posted_jobs"
    ∷ codes "posted_bytes"
    ∷ codes "queued_packets"
    ∷ codes "queued_bytes"
    ∷ codes "inflight_packets"
    ∷ codes "inflight_bytes"
    ∷ codes "posted_peak_bytes"
    ∷ codes "queue_peak_bytes"
    ∷ codes "inflight_peak_bytes"
    ∷ [])

unfoldable pub read_session : List ℕ → Option (SessionSnapshot × List ℕ)
unfolding read_fields
read_session text = bind (read_fields session_labels text) (λ (values, rest).
    bind (expect (codes "}") rest)
      (λ last. bind (session_of values) (λ session. some (session, last))))

session_labels-IsName : All IsName session_labels
session_labels-IsName = ground arith

pub read_session-write_session :
    (s : SessionSnapshot) (rest : List ℕ) → read_session (write_session s ++ rest) ≡ some (s, rest)
unfolding read_session write_session expect
read_session-write_session s rest =
    subst (λ text. read_session text ≡ some (s, rest))
      (sym (append_assoc (write_fields (session_fields s)) (codes "}") rest))
      (rw
        (read_fields-write_fields (session_fields s) (codes "}" ++ rest) session_labels-IsName refl)
        refl)
