-- ===== src/Stratum/Gate.antt =====
-- What reaches the share sink, and what a request changes of the session.
use icminers_stratum_v.Prelude.{
  ℕ, List, [], ◌∷◌, ◌≡◌, ◌⊎◌, refl, arith, Bool, true, false, inl, inr, Bool-cases, Option-cases,
  some, none, Option, Str, ok, err, not, list_beq, codes, Result, ap, ltb, length, if◌then◌else◌,
  leb,
}
use icminers_stratum_v.Prelude.Text.{trim}
use icminers_stratum_v.Prelude.Floats.{Floats}
use icminers_stratum_v.Stratum.Handler.{
  Handler, submit_if_open, Effect, submit, handle_submit, share_of, submitted, respond,
  announce_difficulty, announce_job, reported, counted_by_vardiff, Reply, conclude, nth,
  handle_authorize, handle_configure, handle, Request, handle_subscribe, welcome, admit,
}
use icminers_stratum_v.Adapter.{ShareSubmit, ShareResult}
use icminers_stratum_v.Stratum.Session.{Session, is_authorized, Allocator, authorize}
use icminers_stratum_v.Pool.State.{State, accepts_shares, accepts_new_authorization}
use icminers_stratum_v.Pool.Lifecycle.{get_pool_state}
use icminers_stratum_v.Jobs.Submit.{SubmitError}

module _ {F N : Type 0} where
  -- The shares among the effects.
  unfoldable pub shares_in : List (Effect F N) → List (Str × ShareSubmit F)
  shares_in [] = []
  shares_in (submitted pool share ∷ es) = (pool, share) ∷ shares_in es
  shares_in (respond r ∷ es) = shares_in es
  shares_in (announce_difficulty d ∷ es) = shares_in es
  shares_in (announce_job n ∷ es) = shares_in es
  shares_in (reported ip valid ∷ es) = shares_in es
  shares_in (counted_by_vardiff ∷ es) = shares_in es

not-false : (b : Bool) → not b ≡ false → b ≡ true
not-false b h = ground (arith, h)

module _ (fl : Floats) {N : Type 0} where
  open fl use {F}

  -- A share may go to the sink: for the session's own pool, which accepts shares, from a subscribed
  -- session and a worker it has authorized, and with its own extranonce.
  unfoldable pub IsAllowed : Handler F N → Session F → Str → ShareSubmit F → Type 0
  IsAllowed h s pool share =
      (pool ≡ s.pool_id)
      × (s.subscribed ≡ true)
      × (is_authorized fl share.worker s ≡ true)
      × (share.extra_nonce1 ≡ s.extra_nonce1)
      × ((st : State) × (get_pool_state h.lifecycle s.pool_id ≡ some st)
          × (accepts_shares st ≡ true))

  -- No share, or one that is allowed.
  unfoldable pub IsGated : Handler F N → Session F → List (Effect F N) → Type 0
  unfolding IsAllowed shares_in
  IsGated h s es =
      (shares_in es ≡ [])
      ⊎ ((pool : Str) × (share : ShareSubmit F) × (shares_in es ≡ (pool, share) ∷ [])
          × IsAllowed h s pool share)

  refused-IsGated : (h : Handler F N) (s : Session F) (r : Reply) → IsGated h s (respond r ∷ [])
  unfolding IsGated shares_in
  refused-IsGated h s r = inl refl

  shares_in-conclude :
      (h : Handler F N) (s : Session F) (r : Result SubmitError (ShareResult F))
      → shares_in (conclude fl h s r) ≡ []
  unfolding shares_in conclude
  shares_in-conclude h s (ok r) = refl
  shares_in-conclude h s (err e) = refl

  submit-IsGated :
      (h : Handler F N) (now : ℕ) (s : Session F) (worker : Str) (ps : List Str) (st : State)
      → s.subscribed ≡ true
      → is_authorized fl worker s ≡ true
      → get_pool_state h.lifecycle s.pool_id ≡ some st
      → accepts_shares st ≡ true
      → IsGated h s (submit fl h now s worker ps).1
  unfolding IsGated IsAllowed shares_in submit share_of
  submit-IsGated h now s worker ps st sub auth found open_ = elim (Option-cases h.sink) [
    | inl off ↦ rw (off, submit) (inl refl)
    | inr (take_share, on) ↦
        let share = share_of fl now s worker ps in
        rw (on, submit)
          (inr (
            s.pool_id,
            share,
            ap (λ xs. (s.pool_id, share) ∷ xs)
                (shares_in-conclude h s (take_share s.pool_id share)),
            (refl, sub, auth, refl, (st, found, open_)),
          ))
  ]

  submit_if_open-IsGated :
      (h : Handler F N) (now : ℕ) (s : Session F) (worker : Str) (ps : List Str)
      → s.subscribed ≡ true
      → is_authorized fl worker s ≡ true
      → IsGated h s (submit_if_open fl h now s worker ps).1
  unfolding submit_if_open
  submit_if_open-IsGated h now s worker ps sub auth =
      elim (Option-cases (get_pool_state h.lifecycle s.pool_id)) [
        | inl gone ↦ rw (gone, submit_if_open) (refused-IsGated h s _)
        | inr (st, found) ↦ elim (Bool-cases (accepts_shares st)) [
          | inr shut ↦ rw (found, submit_if_open, shut) (refused-IsGated h s _)
          | inl open_ ↦
              rw (found, submit_if_open, open_)
                (submit-IsGated h now s worker ps st sub auth found open_)
        ]
      ]

  -- A guard: what stands behind it may use that it did not fire.
  behind :
      (h : Handler F N) (s : Session F) (bad : Bool) (x y : Session F × List (Effect F N))
      → IsGated h s x.1
      → (bad ≡ false → IsGated h s y.1)
      → IsGated h s (if bad then x else y).1
  behind h s true x y g k = g
  behind h s false x y g k = k refl

  handle_submit-IsGated :
      (h : Handler F N) (now : ℕ) (s : Session F) (ps : Option (List Str))
      → IsGated h s (handle_submit fl h now s ps).1
  unfolding handle_submit
  handle_submit-IsGated h now s none =
      behind h s (not s.subscribed) _ _ (refused-IsGated h s _) (λ sub. refused-IsGated h s _)
  handle_submit-IsGated h now s (some ps) =
      let worker = trim (nth 0 ps) in
      behind h s (not s.subscribed) _ _ (refused-IsGated h s _) (λ sub.
        behind h s (ltb (length ps) 5) _ _ (refused-IsGated h s _) (λ enough.
          behind h s (not (is_authorized fl worker s)) _ _ (refused-IsGated h s _) (λ auth.
            submit_if_open-IsGated h now s worker ps (not-false s.subscribed sub)
              (not-false (is_authorized fl worker s) auth))))

  silent :
      (h : Handler F N) (s : Session F) (es : List (Effect F N))
      → shares_in es ≡ []
      → IsGated h s es
  unfolding IsGated
  silent h s es e = inl e

  welcome-silent : (h : Handler F N) (s : Session F) → shares_in (welcome fl h s) ≡ []
  unfolding shares_in welcome
  welcome-silent h s = elim (Option-cases (h.current_notify s.pool_id)) [
    | inl idle ↦ rw (idle, welcome) refl
    | inr (n, e) ↦ rw (e, welcome) refl
  ]

  admit-IsGated :
      (h : Handler F N) (s : Session F) (worker : Str) → IsGated h s (admit fl h s worker).1
  unfolding admit
  admit-IsGated h s worker = elim (Option-cases (get_pool_state h.lifecycle s.pool_id)) [
    | inl gone ↦ rw (gone, admit) (refused-IsGated h s _)
    | inr (st, found) ↦ elim (Bool-cases (accepts_new_authorization st)) [
      | inl open_ ↦
          rw (found, admit, open_) (silent h s _ (welcome-silent h (authorize fl worker s)))
      | inr shut ↦ rw (found, admit, shut) (refused-IsGated h s _)
    ]
  ]

  handle_authorize-IsGated :
      (h : Handler F N) (s : Session F) (ps : Option (List Str))
      → IsGated h s (handle_authorize fl h s ps).1
  unfolding handle_authorize
  handle_authorize-IsGated h s none =
      behind h s (not s.subscribed) _ _ (refused-IsGated h s _) (λ sub. refused-IsGated h s _)
  handle_authorize-IsGated h s (some ps) =
      let worker = trim (nth 0 ps) in
      behind h s (not s.subscribed) _ _ (refused-IsGated h s _) (λ sub.
        behind h s (ltb (length ps) 1) _ _ (refused-IsGated h s _) (λ enough.
          behind h s (leb (length worker) 0) _ _ (refused-IsGated h s _)
            (λ named. admit-IsGated h s worker)))

  handle_configure-IsGated :
      (h : Handler F N) (s : Session F) (req : Request) → IsGated h s (handle_configure fl s req).1
  unfolding handle_configure
  handle_configure-IsGated h s req = elim (Option-cases req.extensions) [
    | inl gone ↦ rw (gone, handle_configure) (refused-IsGated h s _)
    | inr (es, e) ↦ rw (e, handle_configure) (refused-IsGated h s _)
  ]

  either :
      (h : Handler F N) (s : Session F) (this : Bool)
      (x y : (Session F × List (Effect F N)) × Allocator)
      → IsGated h s x.0.1
      → IsGated h s y.0.1
      → IsGated h s (if this then x else y).0.1
  either h s true x y g k = g
  either h s false x y g k = k

  -- Whatever the request: at most one share reaches the sink, and only a share for the session's own
  -- pool while that pool accepts shares, from a subscribed session and a worker authorized on it,
  -- with the session's own extranonce.
  pub handle-IsGated :
      (h : Handler F N) (now : ℕ) (alloc : Allocator) (s : Session F) (req : Request)
      → IsGated h s (handle fl h now alloc s req).0.1
  unfolding handle handle_subscribe
  handle-IsGated h now alloc s req =
      either h s (list_beq req.method (codes "mining.subscribe")) _ _ (refused-IsGated h s _) (
        either h s (list_beq req.method (codes "mining.authorize")) _ _
          (handle_authorize-IsGated h s req.strings)
          (either h s (list_beq req.method (codes "mining.configure")) _ _
            (handle_configure-IsGated h s req)
            (either h s (list_beq req.method (codes "client.get_version")) _ _
              (refused-IsGated h s _)
              (either h s (list_beq req.method (codes "mining.submit")) _ _
                (handle_submit-IsGated h now s req.strings) (refused-IsGated h s _)))))
