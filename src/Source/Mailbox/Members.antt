-- ===== src/Source/Mailbox/Members.antt =====
-- A client that comes and a client that goes, as the mailboxes show it.
use linkedon_push.Common.{
  ℕ, ◌≡◌, ◌≢◌, sym, ap, ◌∙◌, false, [], none, some, Bytes, bytes_eq, bytes_eq_iff, find, erase_key,
  bytes_key, nat_key, insert_new_other, erase_key_other, arith, inl, inr, Bool-cases, Option-cases,
}
use linkedon_push.Protocol.Handshake.{HandshakeMessage}
use linkedon_push.Source.Registry.{
  Registry, Client, key_of, create_client, make_client, dispose_client, destroy_client,
  destroy_source, drop_source,
}
use linkedon_push.Source.Registry.Inv.{IsValid, create_client-IsValid, dispose_client-IsValid}
use linkedon_push.Source.Mailbox.{key_of_message, put_box, view}
use linkedon_push.Source.Mailbox.Queues.{view-some, view-none, put_box_here, put_box_other, differs}

-- A source that a client has is not the next new one.
old_source :
    {reg : Registry} (v : IsValid reg) (j : Bytes) (c : Client)
    → find j reg.clients ≡ some c
    → reg.next ≢ c.source
old_source {reg} v j c there p =
    let (q, at) = v.alive c.cstfd c.source (v.bound j c there) in
    cc (at, v.fresh reg.next (omega arith), ap (λ (i : ℕ). find i reg.queues) p)

pub view-create_client :
    {reg : Registry} (v : IsValid reg) (fd : ℕ) (m : HandshakeMessage) (conn : ℕ)
    → find fd reg.sources ≡ none
    → find (key_of_message m) reg.clients ≡ none
    → (j : Bytes)
    → view (create_client fd m conn reg).1 j ≡ put_box (key_of_message m) (some []) (view reg) j
view-create_client {reg} v fd m conn no_fd no_key j =
    elim (Bool-cases (bytes_eq (key_of_message m) j)) [
      | inl same ↦
          let p : key_of_message m ≡ j = (bytes_eq_iff (key_of_message m) j).0 same in
          let (valid, found, empty) = create_client-IsValid v fd m conn no_fd no_key in
          view-some (create_client fd m conn reg).1 j (create_client fd m conn reg).0
            (ap (λ (t : Bytes). find t (create_client fd m conn reg).1.clients) (sym p) ∙ found)
          ∙ empty
          ∙ sym (put_box_here (key_of_message m) j (some []) (view reg) p)
      | inr other ↦ elim (Option-cases (find j reg.clients)) [
        | inl absent ↦
            view-none (create_client fd m conn reg).1 j (clients other ∙ absent)
            ∙ sym (view-none reg j absent)
            ∙ sym (put_box_other (key_of_message m) j (some []) (view reg) other)
        | inr (c, there) ↦
            view-some (create_client fd m conn reg).1 j c (clients other ∙ there)
            ∙ queues c (old_source v j c there)
            ∙ sym (view-some reg j c there)
            ∙ sym (put_box_other (key_of_message m) j (some []) (view reg) other)
      ]
    ]
  where
    clients :
        bytes_eq (key_of_message m) j ≡ false
        → find j (create_client fd m conn reg).1.clients ≡ find j reg.clients
    clients other =
        unfold create_client in
        insert_new_other reg.clients (key_of_message m) j (make_client fd m conn reg.next)
          (differs (key_of_message m) j other)

    queues :
        (c : Client)
        → reg.next ≢ c.source
        → find c.source (create_client fd m conn reg).1.queues ≡ find c.source reg.queues
    queues c ne = unfold create_client in insert_new_other reg.queues reg.next c.source [] ne

dispose_client-clients :
    (c : Client) (reg : Registry)
    → (dispose_client c reg).clients ≡ erase_key (key_of c) reg.clients
unfolding dispose_client destroy_client destroy_source drop_source
dispose_client-clients c reg = ground arith

pub view-dispose_client :
    {reg : Registry} (v : IsValid reg) (k : Bytes) (c : Client)
    → find k reg.clients ≡ some c
    → (j : Bytes) → view (dispose_client c reg) j ≡ put_box k none (view reg) j
view-dispose_client {reg} v k c there j =
    let (valid, gone, freed, kept) = dispose_client-IsValid v k c there in
    elim (Bool-cases (bytes_eq k j)) [
      | inl same ↦
          let p : k ≡ j = (bytes_eq_iff k j).0 same in
          view-none (dispose_client c reg) j
            (ap (λ (t : Bytes). find t (dispose_client c reg).clients) (sym p) ∙ gone)
          ∙ sym (put_box_here k j none (view reg) p)
      | inr other ↦ elim (Option-cases (find j reg.clients)) [
        | inl absent ↦
            view-none (dispose_client c reg) j (
              ap (λ cs. find j cs)
                (dispose_client-clients c reg
                  ∙ ap (λ (t : Bytes). erase_key t reg.clients) (v.keyed k c there))
              ∙ erase_key_other reg.clients k j (differs k j other)
              ∙ absent)
            ∙ sym (view-none reg j absent)
            ∙ sym (put_box_other k j none (view reg) other)
        | inr (c', there') ↦
            let (found, same_queue) = kept j c' (differs k j other) there' in
            view-some (dispose_client c reg) j c' found
            ∙ same_queue
            ∙ sym (view-some reg j c' there')
            ∙ sym (put_box_other k j none (view reg) other)
      ]
    ]
