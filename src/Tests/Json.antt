-- ===== src/Tests/Json.antt =====
-- A printer and a parser that agree, in place of the JSON library: members are written with their
-- lengths, and read back.
use linkedon_push.Common.{
  ℕ, zero, suc, ◌≡◌, refl, ap, ◌∙◌, [], ◌∷◌, ◌++◌, Option, none, some, Bytes, length, take, drop,
  take-append_left, drop-append_left, find, bytes_key, if◌then◌else◌, ◌==◌,
}
use linkedon_push.Source.Message.{
  JsonValue, text, number, Members, JsonObject, Document, object, unreadable, of_json,
  to_all_string,
}
use linkedon_push.Source.Message.RoundTrip.{Reads, IsJsonLibrary, kept_time, of_json-to_all_string}
use linkedon_push.Tests.Sources.{news}

unfoldable print_members : Members → Bytes
print_members [] = []
print_members ((k, text s) ∷ ms) = 1 ∷ length k ∷ (k ++ (length s ∷ (s ++ print_members ms)))
print_members ((k, number n) ∷ ms) = 2 ∷ length k ∷ (k ++ (n ∷ print_members ms))

unfoldable read_value : ℕ → Bytes → Bytes → Option (Bytes × JsonValue × Bytes)
read_value t k [] = none
read_value t k (v ∷ rest) =
    if t == 1 then some (k, text (take v rest), drop v rest) else some (k, number v, rest)

unfoldable read_member : Bytes → Option (Bytes × JsonValue × Bytes)
read_member (t ∷ n ∷ rest) = read_value t (take n rest) (drop n rest)
read_member _ = none

unfoldable read_members : ℕ → Bytes → Members
read_members zero bs = []
read_members (suc n) bs = elim (read_member bs) [
  | none ↦ []
  | some (k, v, rest) ↦ (k, v) ∷ read_members n rest
]

abbrev string_of : Option JsonValue → Bytes
string_of none = []
string_of (some (text s)) = s
string_of (some (number n)) = []

abbrev int64_of : Option JsonValue → ℕ
int64_of none = 0
int64_of (some (text s)) = 0
int64_of (some (number n)) = n

abbrev object_of : Members → JsonObject
object_of ms = record {
  as_string = λ k. string_of (find k ms);
  as_int64 = λ k. int64_of (find k ms);
}

abbrev print_document : Members → Bytes
print_document ms = length ms ∷ print_members ms

abbrev read_document : Bytes → Document
read_document [] = unreadable
read_document (n ∷ bs) = object (object_of (read_members n bs))

pair : {x y z w : Bytes} → x ≡ y → z ≡ w → ◌≡◌ {A = Bytes × Bytes} (x, z) (y, w)
pair p q = λ i. (p i, q i)

read_member_text :
    (k s rest : Bytes)
    → read_member (1 ∷ length k ∷ (k ++ (length s ∷ (s ++ rest)))) ≡ some (k, text s, rest)
unfolding read_member read_value
read_member_text k s rest =
    ap (λ p. read_value 1 p.0 p.1)
      {x = (
        take (length k) (k ++ (length s ∷ (s ++ rest))),
        drop (length k) (k ++ (length s ∷ (s ++ rest))),
      )}
      {y = (k, length s ∷ (s ++ rest))}
      (pair (take-append_left (length k) k (length s ∷ (s ++ rest)) refl)
        (drop-append_left (length k) k (length s ∷ (s ++ rest)) refl))
    ∙ ap (λ p. some (k, text p.0, p.1))
        (pair (take-append_left (length s) s rest refl) (drop-append_left (length s) s rest refl))

read_member_number :
    (k : Bytes) (n : ℕ) (rest : Bytes)
    → read_member (2 ∷ length k ∷ (k ++ (n ∷ rest))) ≡ some (k, number n, rest)
unfolding read_member read_value
read_member_number k n rest =
    ap (λ p. read_value 2 p.0 p.1)
      {x = (take (length k) (k ++ (n ∷ rest)), drop (length k) (k ++ (n ∷ rest)))}
      {y = (k, n ∷ rest)}
      (pair (take-append_left (length k) k (n ∷ rest) refl)
        (drop-append_left (length k) k (n ∷ rest) refl))

read_members-print_members : (ms : Members) → read_members (length ms) (print_members ms) ≡ ms
unfolding read_members print_members
read_members-print_members [] = refl
read_members-print_members ((k, text s) ∷ ms) =
    rw (read_members, read_member_text k s (print_members ms))
      (ap (λ t. (k, text s) ∷ t) (read_members-print_members ms))
read_members-print_members ((k, number n) ∷ ms) =
    rw (read_members, read_member_number k n (print_members ms))
      (ap (λ t. (k, number n) ∷ t) (read_members-print_members ms))

object_of-Reads : (ms : Members) → Reads (object_of ms) ms
object_of-Reads ms = record {
  reads_text = λ k s e. rw e refl;
  reads_number = λ k n e. rw e refl;
  reads_missing = λ k e. rw e (refl, refl);
}

print_document-IsJsonLibrary : IsJsonLibrary print_document read_document
print_document-IsJsonLibrary ms = (
  object_of ms,
  ap (λ t. object (object_of t)) (read_members-print_members ms),
  object_of-Reads ms,
)

of_json-to_all_string_example :
    of_json read_document (to_all_string print_document news)
    ≡ some (record news {
      create_time = kept_time news.create_time;
      expires_time = kept_time news.expires_time;
    })
of_json-to_all_string_example =
    of_json-to_all_string print_document read_document news print_document-IsJsonLibrary
