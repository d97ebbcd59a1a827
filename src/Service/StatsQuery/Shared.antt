-- ===== src/Service/StatsQuery/Shared.antt =====
-- service_c/rbport.c: who holds a context, and how many queries are under way, in any interleaving.
use recyclebin_svc.Base.{
  ℕ, ◌+◌, Bool, true, false, not, ◌||◌, List, [], ◌∷◌, ◌++◌, ◌≡◌, refl, sym, ap, ◌∙◌, subst, arith,
  if◌then◌else◌, All, if-cases,
}
use recyclebin_svc.Service.StatsQuery.{
  WorkerAt, sending, replied, woke, cleared, closed, ended, never, CallerAt, waiting, leaving, gone,
  SendCtx, port_send_ctx_release, worker_from, worker_step, in_flight_behind, caller_from,
  caller_step, StatsState, QueryEnv, fresh_ctx, abandoned, is_unready, port_query_begin,
}
use recyclebin_svc.Service.StatsQuery.Counted.{
  IsCounted, worker_from-IsCounted, caller_from-IsCounted, fresh-IsCounted, abandoned-IsCounted,
}

-- A query is under way until its worker clears the flag.
abbrev pub under_way : WorkerAt → ℕ
under_way sending = 1
under_way replied = 1
under_way woke = 1
under_way _ = 0

abbrev pub queries : List SendCtx → ℕ
queries [] = 0
queries (c ∷ cs) = under_way c.worker + queries cs

-- A new query, or a step of the caller or the worker of some context.
pub data Step : StatsState → StatsState → Type 0 where
  begins : (env : QueryEnv) (s : StatsState) → Step s (port_query_begin env s)
  caller_goes :
      (late : Bool) (in_flight : Bool) (c : SendCtx) (before after : List SendCtx)
      → Step
          (record { in_flight = in_flight; contexts = before ++ c ∷ after })
          (record { in_flight = in_flight; contexts = before ++ caller_step late c ∷ after })
  worker_goes :
      (in_flight : Bool) (c : SendCtx) (before after : List SendCtx)
      → Step
          (record { in_flight = in_flight; contexts = before ++ c ∷ after })
          (record {
            in_flight = in_flight_behind c.worker in_flight;
            contexts = before ++ worker_step c ∷ after;
          })

pub data Reach : StatsState → Type 0 where
  start : Reach (record { in_flight = false; contexts = [] })
  then_step : {s t : StatsState} → Reach s → Step s t → Reach t

abbrev pub flag : Bool → ℕ
flag b = if b then 1 else 0

pub record IsSafe (s : StatsState) : Type 0 where
  pub contexts : All IsCounted s.contexts
  pub one : queries s.contexts ≡ flag s.in_flight

caller_from-worker :
    (late : Bool) (a : CallerAt) (c : SendCtx) → (caller_from late a c).worker ≡ c.worker
unfolding caller_from port_send_ctx_release
caller_from-worker late waiting c =
    if-cases (λ (d : SendCtx). d.worker ≡ c.worker) (late || c.done) _ c (λ _. refl) (λ _. refl)
caller_from-worker late leaving c = refl
caller_from-worker late gone c = refl

-- How the flag and the count go on together.
worker_from-flag :
    (w : WorkerAt) (c : SendCtx) (b : Bool) (others : ℕ)
    → w ≡ c.worker
    → under_way w + others ≡ flag b
    → under_way (worker_from w c).worker + others ≡ flag (in_flight_behind w b)
unfolding worker_from in_flight_behind port_send_ctx_release
worker_from-flag sending c b others e h = h
worker_from-flag replied c b others e h = h
worker_from-flag woke c b others e h = ground (arith, h)
worker_from-flag cleared c b others e h = h
worker_from-flag closed c b others e h = h
worker_from-flag ended c b others e h = subst (λ v. under_way v + others ≡ flag b) e h
worker_from-flag never c b others e h = subst (λ v. under_way v + others ≡ flag b) e h

module _ (c d : SendCtx) (after : List SendCtx) where
  queries-swap :
      (before : List SendCtx)
      → (queries (before ++ c ∷ after) ≡ under_way c.worker + queries (before ++ after))
        × (queries (before ++ d ∷ after) ≡ under_way d.worker + queries (before ++ after))
  queries-swap [] = (refl, refl)
  queries-swap (b ∷ before) =
      let rest = queries-swap before in (omega (arith, rest.0), omega (arith, rest.1))

  All-swap :
      (before : List SendCtx)
      → All IsCounted (before ++ c ∷ after)
      → IsCounted c × (IsCounted d → All IsCounted (before ++ d ∷ after))
  All-swap [] h = (h.0, λ k. (k, h.1))
  All-swap (b ∷ before) h = let rest = All-swap before h.1 in (rest.0, λ k. (h.0, rest.1 k))

-- The flag was clear, so no query was under way.
begun : (b other : Bool) (n : ℕ) → (b || other) ≡ false → n ≡ flag b → 1 + n ≡ 1
begun b other n e h = ground (arith, e, h)

begin-IsSafe : (env : QueryEnv) (s : StatsState) → IsSafe s → IsSafe (port_query_begin env s)
unfolding port_query_begin
begin-IsSafe env s h =
    let failed : StatsState = record s { contexts = abandoned fresh_ctx ∷ s.contexts } in
    let made : StatsState = record { in_flight = true; contexts = fresh_ctx ∷ s.contexts } in
    if-cases IsSafe (s.in_flight || is_unready env) s
      (if not env.event || not env.thread then failed else made) (λ _. h)
      (λ e.
        if-cases IsSafe (not env.event || not env.thread) failed made
          (λ _. record { contexts = (abandoned-IsCounted, h.contexts); one = omega (arith, h.one) })
          (λ _. record {
            contexts = (fresh-IsCounted, h.contexts);
            one = begun s.in_flight (is_unready env) (queries s.contexts) e h.one;
          }))

Step-IsSafe : (s t : StatsState) → Step s t → IsSafe s → IsSafe t
Step-IsSafe s t (begins env _) h = begin-IsSafe env s h
Step-IsSafe s t (caller_goes late in_flight c before after) h =
    let d = caller_step late c in
    let all = All-swap c d after before h.contexts in
    let count = queries-swap c d after before in
    record {
      contexts = all.1 (caller_from-IsCounted late c.caller c refl all.0);
      one =
          count.1
          ∙ ap (λ w. under_way w + queries (before ++ after)) (caller_from-worker late c.caller c)
          ∙ sym count.0
          ∙ h.one;
    }
Step-IsSafe s t (worker_goes in_flight c before after) h =
    let d = worker_step c in
    let all = All-swap c d after before h.contexts in
    let count = queries-swap c d after before in
    record {
      contexts = all.1 (worker_from-IsCounted c.worker c refl all.0);
      one =
          count.1
          ∙ worker_from-flag c.worker c in_flight (queries (before ++ after)) refl
              (sym count.0 ∙ h.one);
    }

-- Whatever queries begin and however their callers and workers take turns, a context is freed exactly
-- when neither uses it any more, its handle is open until its worker has closed it, and at most one
-- query is on its way to the driver, none while the flag is clear.
pub Reach-IsSafe : (s : StatsState) → Reach s → IsSafe s
Reach-IsSafe s start = record { contexts = tt; one = refl }
Reach-IsSafe s (then_step {s = r} reached step) = Step-IsSafe r s step (Reach-IsSafe r reached)
