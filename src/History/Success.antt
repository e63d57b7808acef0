-- ===== src/History/Success.antt =====
-- The return codes of the history thread.
use linkedon_push.Common.{
  ℕ, zero, suc, ◌≡◌, ◌≢◌, ◌⊎◌, inl, inr, refl, Bool, true, false, Option, none, some, ◌==◌, Bytes,
  arith, Bool-cases, Option-cases, ◌>>=◌,
}
use linkedon_push.Conn.{Entity}
use linkedon_push.Errors.{error_success, error_object_not_exist}
use linkedon_push.History.{
  Pending, pop_entity, can_loop, page_size, history_query, Work, finished, looping, end_work,
  select_limit, select_loop, select_work, do_cycle, stops, round_of, cycle_round,
}
use linkedon_push.Mongo.{Driver, Query, select_one_is_exist, skip_params_is_exist}
use linkedon_push.Source.Registry.{Registry, instance_client}

-- Success, or the client has gone.
abbrev Mild : ℕ → Type 0
Mild ret = (ret ≡ error_success) ⊎ (ret ≡ error_object_not_exist)

abbrev MildWork : Work → Type 0
MildWork (finished ret reg) = Mild ret
MildWork (looping reg) = Unit

abbrev MildRet : Option (ℕ × Registry) → Type 0
MildRet none = Unit
MildRet (some (ret, reg)) = Mild ret

abbrev MildOption : Option Work → Type 0
MildOption none = Unit
MildOption (some w) = MildWork w

pushed-MildRet : (o : Option Registry) → MildRet (o >>= λ reg. some (error_success, reg))
pushed-MildRet none = tt
pushed-MildRet (some reg) = inl refl

bind-MildOption :
    (o : Option (ℕ × Registry)) (f : ℕ × Registry → Option Work)
    → MildRet o
    → ((r : ℕ × Registry) → Mild r.0 → MildOption (f r))
    → MildOption (o >>= f)
bind-MildOption none f m h = tt
bind-MildOption (some r) f m h = h r m

module _ (stoll : Bytes → Option ℕ) (mongo : Driver) where
  select_limit-MildRet :
      (mie : Entity) (q : Query) (page size : ℕ) (reg : Registry)
      → MildRet (select_limit stoll mongo mie q page size reg)
  unfolding select_limit
  select_limit-MildRet mie q page size reg =
      elim (Option-cases (instance_client mie.user_id mie.app_key mie.secrete_key reg)) [
        | inl absent ↦ rw (select_limit, absent) (inr refl)
        | inr (client, there) ↦ rw (select_limit, there) (pushed-MildRet _)
      ]

  after_page :
      (rest : Option Work) (r : ℕ × Registry)
      → Mild r.0
      → MildOption rest
      → MildOption (elim (r.0 == error_success) [ false ↦ some (finished r.0 r.1) | true ↦ rest ])
  after_page rest r m h = elim (Bool-cases (r.0 == error_success)) [
    | inl done ↦ rw done h
    | inr error ↦ rw error m
  ]

  select_loop-MildOption :
      (rounds : ℕ) (mie : Entity) (q : Query) (isup : Bool) (reg : Registry)
      → MildOption (select_loop stoll mongo rounds mie q isup reg)
  unfolding select_loop
  select_loop-MildOption rounds mie q false reg =
      bind-MildOption _ _ (select_limit-MildRet mie q 1 page_size reg) (λ r m. m)
  select_loop-MildOption zero mie q true reg = tt
  select_loop-MildOption (suc rounds) mie q true reg =
      bind-MildOption _ _ (select_limit-MildRet mie q 1 page_size reg) (λ r m.
        after_page _ r m
          (select_loop-MildOption rounds mie q (skip_params_is_exist mongo q page_size) r.1))

  select_work-MildOption :
      (rounds : ℕ) (mie : Entity) (reg : Registry)
      → MildOption (select_work stoll mongo rounds mie reg)
  unfolding select_work
  select_work-MildOption rounds mie reg =
      elim (Bool-cases (select_one_is_exist mongo (history_query mie))) [
        | inl some_docs ↦ rw (select_work, some_docs) (select_loop-MildOption rounds mie _ _ reg)
        | inr no_docs ↦ rw (select_work, no_docs) (inl refl)
      ]

  round_goes_on :
      (w : Work) (queue : Pending) (ret : ℕ)
      → MildWork w
      → round_of (end_work w, queue) ≢ some (stops ret)
  unfolding round_of end_work
  round_goes_on (looping reg) queue ret m e = cc
  round_goes_on (finished r reg) queue ret (inl done) e = absurd (ground arith)
  round_goes_on (finished r reg) queue ret (inr gone) e = absurd (ground arith)

  work_goes_on :
      (o : Option Work) (queue : Pending) (ret : ℕ)
      → MildOption o
      → ((o >>= λ work. some (end_work work, queue)) >>= round_of) ≢ some (stops ret)
  work_goes_on none queue ret m e = cc
  work_goes_on (some w) queue ret m e = round_goes_on w queue ret m e

  next_goes_on :
      (o : Option (Entity × Pending)) (rounds ret : ℕ) (reg : Registry)
      → ((o >>= λ next.
            select_work stoll mongo rounds next.0 reg >>= λ work. some (end_work work, next.1))
          >>= round_of)
        ≢ some (stops ret)
  next_goes_on none rounds ret reg e = cc
  next_goes_on (some (mie, queue)) rounds ret reg e =
      work_goes_on (select_work stoll mongo rounds mie reg) queue ret
        (select_work-MildOption rounds mie reg) e

  -- No round of the history thread ends with an error, whatever the database answers and whether the client is there:
  -- `cycle` never calls `trd->stop()`, which would wait for its own thread.
  pub cycle_round_never_stops :
      (rounds ret : ℕ) (queue : Pending) (reg : Registry)
      → cycle_round stoll mongo rounds queue reg ≢ some (stops ret)
  unfolding cycle_round do_cycle
  cycle_round_never_stops rounds ret queue reg e = elim (Bool-cases (can_loop queue)) [
    | inl more ↦ next_goes_on (pop_entity queue) rounds ret reg (rw more at e)
    | inr empty ↦ absurd (ground arith)
  ]
