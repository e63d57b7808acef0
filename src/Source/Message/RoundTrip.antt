-- ===== src/Source/Message/RoundTrip.antt =====
-- A worker message through its JSON forms, for a JSON library whose parser reads what its printer
-- wrote.
use linkedon_push.Common.{
  ℕ, ◌%◌, ◌^◌, ◌≡◌, refl, ◌∙◌, [], ◌∷◌, none, some, if◌then◌else◌, Bytes, codes, find, bytes_key,
  arith, inl, inr, bytes_eq, Bool-cases,
}
use linkedon_push.Math.{empty_int, empty_string}
use linkedon_push.Source.Message.{
  WorkerMessage, text, number, Members, JsonObject, Document, object, of_json, of_document,
  put_text, put_time, to_all_members, to_all_string, copy,
}

-- A document that holds the members `ms`: a string reads as itself, a number as itself, and a member
-- that is not there as the empty string and as 0.
pub record Reads (json : JsonObject) (ms : Members) : Type 0 where
  pub reads_text : (k s : Bytes) → find k ms ≡ some (text s) → json.as_string k ≡ s
  pub reads_number : (k : Bytes) (n : ℕ) → find k ms ≡ some (number n) → json.as_int64 k ≡ n
  pub reads_missing :
      (k : Bytes) → find k ms ≡ none → (json.as_string k ≡ []) × (json.as_int64 k ≡ 0)

-- The parser accepts what the printer wrote, as the same members.
abbrev pub IsJsonLibrary : (Members → Bytes) → (Bytes → Document) → Type 0
IsJsonLibrary to_styled_string parse =
    (ms : Members)
    → (json : JsonObject) × (parse (to_styled_string ms) ≡ object json) × Reads json ms

-- What is left of a time: nothing if its low 32 bits are 0 or negative as an `int`.
abbrev pub kept_time : ℕ → ℕ
kept_time t = if empty_int (t % 2 ^ 32) then 0 else t

find-put_text :
    (k j s : Bytes) (ms : Members)
    → find j (put_text k s ms)
      ≡ (if bytes_eq k j then (if empty_string s then find j ms else some (text s)) else find j ms)
unfolding put_text
find-put_text k j s ms = ground arith

find-put_time :
    (k j : Bytes) (t : ℕ) (ms : Members)
    → find j (put_time k t ms) ≡ (
        if bytes_eq k j
        then (if empty_int (t % 2 ^ 32) then find j ms else some (number t))
        else find j ms)
unfolding put_time
find-put_time k j t ms = ground arith

ruleset member_laws = (find-put_text, find-put_time)

module _ {json : JsonObject} {ms : Members} (r : Reads json ms) where
  as_string_of :
      (k s : Bytes)
      → find k ms ≡ (if empty_string s then none else some (text s))
      → json.as_string k ≡ s
  unfolding empty_string
  as_string_of k [] e = (r.reads_missing k e).0
  as_string_of k (c ∷ s) e = r.reads_text k (c ∷ s) e

  as_int64_of :
      (k : Bytes) (t : ℕ)
      → find k ms ≡ (if empty_int (t % 2 ^ 32) then none else some (number t))
      → json.as_int64 k ≡ kept_time t
  as_int64_of k t e = elim (Bool-cases (empty_int (t % 2 ^ 32))) [
    | inl gone ↦ rw gone (r.reads_missing k (e ∙ rw gone)).1
    | inr there ↦ rw there (r.reads_number k t (e ∙ rw there))
  ]

-- For a JSON library whose parser reads what its printer wrote, `toAllString` loses nothing but
-- times: the message that is read back has every text, and each time as `kept_time` leaves it,
-- which is 0 if its low 32 bits are 0 or negative as an `int`.
pub of_json-to_all_string :
    (to_styled_string : Members → Bytes) (parse : Bytes → Document) (m : WorkerMessage)
    → IsJsonLibrary to_styled_string parse
    → of_json parse (to_all_string to_styled_string m)
      ≡ some (record m {
        create_time = kept_time m.create_time;
        expires_time = kept_time m.expires_time;
      })
unfolding of_json of_document to_all_string
of_json-to_all_string to_styled_string parse m library =
    let (json, e, r) = library (to_all_members m) in
    rw e (λ i. some (record {
      task_id =
          as_string_of r (codes "TaskId") m.task_id (unfold to_all_members in simp member_laws) i;
      msg_id =
          as_string_of r (codes "MsgId") m.msg_id (unfold to_all_members in simp member_laws) i;
      app_key =
          as_string_of r (codes "AppKey") m.app_key (unfold to_all_members in simp member_laws) i;
      app_secret =
          as_string_of r (codes "AppSecret") m.app_secret
            (unfold to_all_members in simp member_laws) i;
      user_id =
          as_string_of r (codes "UserId") m.user_id (unfold to_all_members in simp member_laws) i;
      title = as_string_of r (codes "Title") m.title (unfold to_all_members in simp member_laws) i;
      content =
          as_string_of r (codes "Content") m.content (unfold to_all_members in simp member_laws) i;
      ext = as_string_of r (codes "Ext") m.ext (unfold to_all_members in simp member_laws) i;
      create_time =
          as_int64_of r (codes "CreateTime") m.create_time
            (unfold to_all_members in simp member_laws) i;
      expires_time =
          as_int64_of r (codes "ExpiresTime") m.expires_time
            (unfold to_all_members in simp member_laws) i;
    }))

-- `copy` makes an equal message.
pub copy_lem : (m : WorkerMessage) → copy m ≡ m
unfolding copy
copy_lem m = refl
