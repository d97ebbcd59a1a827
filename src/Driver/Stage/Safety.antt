-- ===== src/Driver/Stage/Safety.antt =====
-- driver/rbminiflt.c, RB-04 and RB-33: what becomes of a file whose delete the driver sees.
use recyclebin_svc.Base.{
  ℕ, ◌+◌, ◌-◌, Bool, true, false, not, Option, none, some, ◌≡◌, ◌≢◌, ◌⊎◌, inl, inr, refl, ◌∙◌,
  arith, WideString, if◌then◌else◌,
}
use recyclebin_svc.Driver.State.{Status, success, access_denied, Global}
use recyclebin_svc.Driver.Kernel.{Kernel}
use recyclebin_svc.Driver.Cache.{DirEnv, ensure_store_dir}
use recyclebin_svc.Driver.Queue.{reserve_queue_slot, release_queue_slot}
use recyclebin_svc.Driver.Stage.{
  with_callback, complete, Outcome, FileName, StageEnv, fail_delete, move_to_store, after_rename,
  after_path, after_dir, after_reserve, after_sid, intercept, is_covered, stage_named, stage_delete,
  has_delete_on_close, create_named, pre_create, post_create,
}

-- The request was completed, and the file was renamed away, with success reported, or it was left
-- alone, with the delete refused.
pub record IsKept (env : StageEnv) (o : Outcome) : Type 0 where
  pub completed : o.callback ≡ complete
  pub reported :
      ((p : WideString) × (o.renamed ≡ some p)
        × (o.io ≡ some success)
        × (move_to_store env p ≡ true))
      ⊎ ((o.renamed ≡ none) × (o.io ≡ some access_denied))

fail_delete-IsKept :
    (env : StageEnv) (g : Global) → g.fail_closed ≡ true → IsKept env (fail_delete g)
unfolding fail_delete
fail_delete-IsKept env g closed =
    rw closed (record { completed = refl; reported = inr (refl, refl) })

released-IsKept :
    (env : StageEnv) (g : Global)
    → g.fail_closed ≡ true
    → IsKept env (fail_delete (release_queue_slot g))
unfolding release_queue_slot
released-IsKept env g closed = fail_delete-IsKept env (release_queue_slot g) closed

ensure_store_dir-closed :
    (env : DirEnv) (volume sid : WideString) (g : Global)
    → (ensure_store_dir env volume sid g).1.fail_closed ≡ g.fail_closed
unfolding ensure_store_dir
ensure_store_dir-closed env volume sid g = ground arith

after_rename-IsKept :
    (env : StageEnv) (name : FileName) (sid : WideString) (session : ℕ) (store : WideString)
    (ok : Bool) (g : Global)
    → move_to_store env store ≡ ok
    → g.fail_closed ≡ true
    → IsKept env (after_rename env name sid session store ok g)
unfolding after_rename
after_rename-IsKept env name sid session store true g moved closed = record {
  completed = refl;
  reported = inl (store, refl, refl, moved);
}
after_rename-IsKept env name sid session store false g moved closed = released-IsKept env _ closed

after_path-IsKept :
    (env : StageEnv) (name : FileName) (sid : WideString) (session : ℕ) (o : Option WideString)
    (g : Global)
    → g.fail_closed ≡ true
    → IsKept env (after_path env name sid session o g)
unfolding after_path
after_path-IsKept env name sid session none g closed = released-IsKept env g closed
after_path-IsKept env name sid session (some store) g closed =
    after_rename-IsKept env name sid session store _ g refl closed

after_dir-IsKept :
    (env : StageEnv) (name : FileName) (sid : WideString) (session : ℕ) (st : Status) (g : Global)
    → g.fail_closed ≡ true
    → IsKept env (after_dir env name sid session st g)
unfolding after_dir
after_dir-IsKept env name sid session success g closed =
    after_path-IsKept env name sid session _ _ closed
after_dir-IsKept env name sid session _ g closed = released-IsKept env g closed

after_reserve-IsKept :
    (env : StageEnv) (name : FileName) (sid : WideString) (session : ℕ) (slot : Bool) (g : Global)
    → g.fail_closed ≡ true
    → IsKept env (after_reserve env name sid session slot g)
unfolding after_reserve
after_reserve-IsKept env name sid session false g closed = fail_delete-IsKept env _ closed
after_reserve-IsKept env name sid session true g closed =
    after_dir-IsKept env name sid session _ _
      (ensure_store_dir-closed env.dir name.volume sid g ∙ closed)

reserve_queue_slot-closed : (g : Global) → (reserve_queue_slot g).1.fail_closed ≡ g.fail_closed
unfolding reserve_queue_slot
reserve_queue_slot-closed g = ground arith

after_sid-IsKept :
    (env : StageEnv) (name : FileName) (session : ℕ) (o : Option WideString) (g : Global)
    → g.fail_closed ≡ true
    → IsKept env (after_sid env name session o g)
unfolding after_sid
after_sid-IsKept env name session none g closed = fail_delete-IsKept env g closed
after_sid-IsKept env name session (some sid) g closed =
    after_reserve-IsKept env name sid session _ _ (reserve_queue_slot-closed g ∙ closed)

intercept-IsKept :
    (k : Kernel) (env : StageEnv) (name : FileName) (g : Global)
    → g.fail_closed ≡ true
    → IsKept env (intercept k env name g)
unfolding intercept
intercept-IsKept k env name g closed = after_sid-IsKept env name _ _ _ closed

-- The delete is one that the driver has to take: its name cannot be resolved, or the path is
-- protected and the name not excluded.
abbrev pub MustKeep : Kernel → StageEnv → Option FileName → Global → Type 0
MustKeep k env none g = Unit
MustKeep k env (some name) g = is_covered k env.name_pool name g ≡ true

stage_named-covered :
    (k : Kernel) (env : StageEnv) (name : FileName) (g : Global)
    → is_covered k env.name_pool name g ≡ true
    → stage_named k env (some name) g ≡ intercept k env name g
unfolding is_covered stage_named
stage_named-covered k env name g h = ground arith

stage_named-IsKept :
    (k : Kernel) (env : StageEnv) (o : Option FileName) (g : Global)
    → g.fail_closed ≡ true
    → MustKeep k env o g
    → IsKept env (stage_named k env o g)
unfolding stage_named
stage_named-IsKept k env none g closed must = fail_delete-IsKept env g closed
stage_named-IsKept k env (some name) g closed must =
    rw (stage_named-covered k env name g must) (intercept-IsKept k env name g closed)

-- When RbfStageDelete is asked for a delete in fail-closed mode, and the name it got cannot be resolved,
-- or RbfIsProtected answers for the path and the name is not excluded, then it completes the request and
-- does not pass it on: either with success after the file was renamed into staging, or with
-- STATUS_ACCESS_DENIED and no rename. It says nothing of deletes that do not come to RbfStageDelete, such
-- as a delete-on-close open without a name, nor of a path that RbfIsProtected could not look at.
pub stage_delete-IsKept :
    (k : Kernel) (env : StageEnv) (g : Global)
    → g.fail_closed ≡ true
    → MustKeep k env env.name g
    → IsKept env (stage_delete k env g)
unfolding stage_delete
stage_delete-IsKept k env g closed must = stage_named-IsKept k env env.name g closed must

-- Where the file ends up.
pub data Fate : Type 0 where
  in_place : Fate
  staged : WideString → Fate
  destroyed : Fate

abbrev pub renamed_fate : Option WideString → Fate
renamed_fate none = in_place
renamed_fate (some p) = staged p

-- A delete-on-close open from its pre-create to the close of its handle: with the flag still set, the
-- file system deletes the file then.
unfoldable pub close_fate :
    Kernel → StageEnv → Bool → Option FileName → Bool → ℕ → Bool → Bool → Global → Fate
close_fate k env pool_ok name parsed options created has_file g =
    let pre = pre_create k pool_ok name parsed options g in
    let post = post_create k env pre.2 created has_file g in
    if not created
    then in_place
    else if has_delete_on_close pre.1
    then destroyed
    else renamed_fate post.renamed

pre_create-covered :
    (k : Kernel) (pool_ok : Bool) (name : FileName) (options : ℕ) (g : Global)
    → has_delete_on_close options ≡ true
    → is_covered k pool_ok name g ≡ true
    → pre_create k pool_ok (some name) true options g ≡ (with_callback, options - 4096, true)
unfolding pre_create create_named is_covered
pre_create-covered k pool_ok name options g doc covered = ground arith

renamed_fate-kept : (o : Option WideString) → renamed_fate o ≢ destroyed
renamed_fate-kept none e = cc
renamed_fate-kept (some p) e = cc

stripped :
    (options : ℕ)
    → has_delete_on_close options ≡ true
    → has_delete_on_close (options - 4096) ≡ false
stripped options doc = ground arith

options_kept :
    (k : Kernel) (pool_ok : Bool) (name : FileName) (options : ℕ) (g : Global)
    → is_covered k pool_ok name g ≡ true
    → has_delete_on_close options ≡ true
    → (pre_create k pool_ok (some name) true options g).1 + 4096 ≡ options
options_kept k pool_ok name options g covered doc =
    rw (pre_create-covered k pool_ok name options g doc covered) (ground arith)

-- A delete-on-close open of a covered file never destroys it, in either failure mode and whatever
-- goes wrong while staging: the flag is stripped, and every other create option kept, before the
-- file system sees it.
pub close_fate-kept :
    (k : Kernel) (env : StageEnv) (pool_ok : Bool) (name : FileName) (options : ℕ)
    (created has_file : Bool) (g : Global)
    → is_covered k pool_ok name g ≡ true
    → has_delete_on_close options ≡ true
    → (close_fate k env pool_ok (some name) true options created has_file g ≢ destroyed)
      × ((pre_create k pool_ok (some name) true options g).1 + 4096 ≡ options)
unfolding close_fate
close_fate-kept k env pool_ok name options false has_file g covered doc =
    (cc, options_kept k pool_ok name options g covered doc)
close_fate-kept k env pool_ok name options true has_file g covered doc = (
  rw (pre_create-covered k pool_ok name options g doc covered, stripped options doc)
      (renamed_fate-kept _),
  options_kept k pool_ok name options g covered doc,
)

-- A delete-on-close open whose name the filter manager cannot resolve goes to the file system with
-- its flag, and a successful open destroys the file, in fail-closed mode too.
close_fate-unresolved :
    (k : Kernel) (env : StageEnv) (pool_ok parsed has_file : Bool) (options : ℕ) (g : Global)
    → has_delete_on_close options ≡ true
    → close_fate k env pool_ok none parsed options true has_file g ≡ destroyed
unfolding close_fate pre_create create_named
close_fate-unresolved k env pool_ok parsed has_file options g doc = ground arith
