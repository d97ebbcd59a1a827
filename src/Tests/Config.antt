-- ===== src/Tests/Config.antt =====
-- driver/rbminiflt.c: notifications, configuration, protection and the directory cache on concrete
-- inputs.
use recyclebin_svc.Base.{ℕ, suc, true, none, some, [], ◌∷◌, ◌≡◌, ◌≢◌, ◌↔◌, arith}
use recyclebin_svc.Base.Wide.{wide}
use recyclebin_svc.Base.Prefix.{SomeOf, IsUnder}
use recyclebin_svc.Driver.State.{success, Note}
use recyclebin_svc.Driver.Protect.{is_protected, is_protected_iff}
use recyclebin_svc.Driver.Notify.{alloc_notify, notify_path, notify_store_path, notify_sid}
use recyclebin_svc.Driver.Notify.Layout.{IsLaidOut, alloc_notify-IsLaidOut}
use recyclebin_svc.Driver.Notify.RoundTrip.{staged_note, staged_note-reads}
use recyclebin_svc.Tests.{exact_kernel}

not_nul : (n : ℕ) → suc n ≢ 0
not_nul n e = absurd (omega arith)

is_protected_iff_example :
    (is_protected exact_kernel (wide "\\S" ∷ []) true (wide "\\s\\a") ≡ true)
    ↔ SomeOf (λ p. IsUnder p (wide "\\S\\A")) (wide "\\S" ∷ [])
is_protected_iff_example = is_protected_iff exact_kernel (wide "\\S" ∷ []) (wide "\\s\\a")

alloc_notify-IsLaidOut_example :
    (note : Note) × (alloc_notify 9 8 7 true ≡ (success, some note)) × IsLaidOut note
alloc_notify-IsLaidOut_example = alloc_notify-IsLaidOut 9 8 7

staged_note-reads_example :
    let note = staged_note (wide "\\a") (wide "\\b") (wide "\\S") 1 none in
    (notify_path note ≡ wide "\\a")
    × (notify_store_path note ≡ wide "\\b")
    × (notify_sid note ≡ wide "\\S")
staged_note-reads_example =
    staged_note-reads (wide "\\a") (wide "\\b") (wide "\\S") 1 none (not_nul 91, (not_nul 96, tt))
      (not_nul 91, (not_nul 97, tt)) (not_nul 91, (not_nul 82, tt))
