-- ===== src/Service/StatsQuery/Counted.antt =====
-- service_c/rbport.c: who holds a context of a statistics query.
use recyclebin_svc.Base.{
  ℕ, suc, ◌+◌, ◌-◌, Bool, true, false, not, ◌||◌, ◌≡◌, refl, sym, subst, arith, ◌==◌, if◌then◌else◌,
  if-cases,
}
use recyclebin_svc.Service.StatsQuery.{
  WorkerAt, sending, replied, woke, cleared, closed, ended, never, CallerAt, waiting, leaving, gone,
  SendCtx, port_send_ctx_release, worker_from, caller_from, fresh_ctx, abandoned,
}

abbrev pub worker_holds : WorkerAt → ℕ
worker_holds ended = 0
worker_holds never = 0
worker_holds _ = 1

abbrev pub caller_holds : CallerAt → ℕ
caller_holds gone = 0
caller_holds _ = 1

-- The worker's handle: open until it closes it.
abbrev pub has_closed : WorkerAt → Bool
has_closed closed = true
has_closed ended = true
has_closed _ = false

-- The references are those of the two that still use the context; it is freed when there is none; the
-- worker's handle is open until the worker has closed it.
pub record IsCounted (c : SendCtx) : Type 0 where
  pub counted : c.refs ≡ caller_holds c.caller + worker_holds c.worker
  pub freed : c.freed ≡ (c.refs == 0)
  pub handle : c.port_open ≡ not (has_closed c.worker)

-- What is counted of a worker at `w`.
held :
    (c : SendCtx) (w : WorkerAt)
    → w ≡ c.worker
    → IsCounted c
    → c.refs ≡ caller_holds c.caller + worker_holds w
held c w e h = subst (λ v. c.refs ≡ caller_holds c.caller + worker_holds v) (sym e) h.counted

opened :
    (c : SendCtx) (w : WorkerAt) → w ≡ c.worker → IsCounted c → c.port_open ≡ not (has_closed w)
opened c w e h = subst (λ v. c.port_open ≡ not (has_closed v)) (sym e) h.handle

freed_next :
    (n m : ℕ) (b : Bool) → n ≡ suc m → b ≡ (n == 0) → (if m == 0 then true else b) ≡ (m == 0)
freed_next n m b e h = ground (arith, e, h)

freed-release :
    (c : SendCtx) (m : ℕ)
    → c.refs ≡ suc m
    → c.freed ≡ (c.refs == 0)
    → ((port_send_ctx_release c).refs ≡ m)
      × ((port_send_ctx_release c).freed ≡ ((port_send_ctx_release c).refs == 0))
unfolding port_send_ctx_release
freed-release c m e h =
    let less : c.refs - 1 ≡ m = omega (arith, e) in
    (less, freed_next c.refs (c.refs - 1) c.freed (omega (arith, e)) h)

pub worker_from-IsCounted :
    (w : WorkerAt) (c : SendCtx) → w ≡ c.worker → IsCounted c → IsCounted (worker_from w c)
unfolding worker_from port_send_ctx_release
worker_from-IsCounted sending c e h = record {
  counted = held c sending e h;
  freed = h.freed;
  handle = opened c sending e h;
}
worker_from-IsCounted replied c e h = record {
  counted = held c replied e h;
  freed = h.freed;
  handle = opened c replied e h;
}
worker_from-IsCounted woke c e h = record {
  counted = held c woke e h;
  freed = h.freed;
  handle = opened c woke e h;
}
worker_from-IsCounted cleared c e h = record {
  counted = held c cleared e h;
  freed = h.freed;
  handle = refl;
}
worker_from-IsCounted closed c e h =
    let r = freed-release c (caller_holds c.caller) (omega (arith, held c closed e h)) h.freed in
    record { counted = omega (arith, r.0); freed = r.1; handle = opened c closed e h }
worker_from-IsCounted ended c e h = h
worker_from-IsCounted never c e h = h

pub caller_from-IsCounted :
    (late : Bool) (a : CallerAt) (c : SendCtx)
    → a ≡ c.caller
    → IsCounted c
    → IsCounted (caller_from late a c)
unfolding caller_from port_send_ctx_release
caller_from-IsCounted late waiting c e h =
    let n = subst (λ b. c.refs ≡ caller_holds b + worker_holds c.worker) (sym e) h.counted in
    if-cases IsCounted (late || c.done) (record c { caller = leaving }) c
      (λ _. record { counted = n; freed = h.freed; handle = h.handle }) (λ _. h)
caller_from-IsCounted late leaving c e h =
    let n = subst (λ b. c.refs ≡ caller_holds b + worker_holds c.worker) (sym e) h.counted in
    let r = freed-release c (worker_holds c.worker) (omega (arith, n)) h.freed in
    record { counted = omega (arith, r.0); freed = r.1; handle = h.handle }
caller_from-IsCounted late gone c e h = h

pub fresh-IsCounted : IsCounted fresh_ctx
fresh-IsCounted = record { counted = refl; freed = refl; handle = refl }

pub abandoned-IsCounted : IsCounted (abandoned fresh_ctx)
unfolding port_send_ctx_release
abandoned-IsCounted = record { counted = refl; freed = refl; handle = refl }
