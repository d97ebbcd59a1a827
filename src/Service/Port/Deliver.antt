-- ===== src/Service/Port/Deliver.antt =====
-- driver/rbminiflt.c, service_c/rbport.c and service_c/rbdb.c together: from a staged file to its row.
use recyclebin_svc.Base.{
  ℕ, suc, ◌≤◌, Bool, true, Option, [], ◌∷◌, ◌++◌, ◌≡◌, refl, ap, arith, WideString, take, ◌∙◌,
  take_all, length-take,
}
use recyclebin_svc.Driver.State.{Note}
use recyclebin_svc.Driver.Queue.{is_well_formed}
use recyclebin_svc.Driver.Notify.Slots.{HasNoNul}
use recyclebin_svc.Driver.Notify.RoundTrip.{staged_note, staged_note-reads}
use recyclebin_svc.Driver.Stage.Account.{staged_note-well_formed}
use recyclebin_svc.Service.Db.{Item, staged, Table, item_of, strip_sid, db_add_item}
use recyclebin_svc.Base.Wide.{backslash}
use recyclebin_svc.Service.Text.{u8_text}
use recyclebin_svc.Service.Port.{port_handle_message}

well_formed-accepted :
    (sql_ok : Bool) (now : ℕ) (client : WideString → WideString) (note : Note) (avail : ℕ)
    (t : Table)
    → is_well_formed note ≡ true
    → note.total_size ≤ avail
    → port_handle_message sql_ok now client note avail t ≡ (db_add_item sql_ok now client note t).1
unfolding port_handle_message
well_formed-accepted sql_ok now client note avail t well came = ground arith

strip_sid-cut : (s : WideString) → strip_sid (take 255 (backslash ∷ s)) ≡ take 254 s
strip_sid-cut s = take_all 255 (take 254 s) (omega (arith, length-take 254 s))

-- The message that the driver makes for a staged file, if it arrives whole and SQLite takes the
-- insertion, adds one row behind the others: staged, under the next id, with the file's path and the
-- staging path cut to 1023 WCHARs, and with the SID that the driver put behind a separator cut to 254.
-- In these, a surrogate that is not half of a pair is stored as U+FFFD.
pub staged_note-delivered :
    (now : ℕ) (client : WideString → WideString) (name store sid : WideString) (session : ℕ)
    (info : Option (ℕ × ℕ)) (avail : ℕ) (t : Table)
    → HasNoNul name
    → HasNoNul store
    → HasNoNul sid
    → (staged_note name store (backslash ∷ sid) session info).total_size ≤ avail
    → (row : Item) × (port_handle_message true now client
          (staged_note name store (backslash ∷ sid) session info)
          avail
          t
        ≡ record { rows = t.rows ++ row ∷ []; next_id = suc t.next_id })
      × (row.id ≡ t.next_id)
      × (row.status ≡ staged)
      × (row.orig_path ≡ u8_text (take 1023 name))
      × (row.store_path ≡ u8_text (take 1023 store))
      × (row.sid ≡ u8_text (take 254 sid))
unfolding db_add_item
staged_note-delivered now client name store sid session info avail t hn hs hi came =
    let note = staged_note name store (backslash ∷ sid) session info in
    let reads =
      staged_note-reads name store (backslash ∷ sid) session info hn hs
        ((λ e. absurd (omega (arith, e))), hi) in
    (
      item_of t.next_id now client note,
      well_formed-accepted true now client note avail t
          (staged_note-well_formed name store (backslash ∷ sid) session info) came,
      refl,
      refl,
      ap u8_text reads.0,
      ap u8_text reads.1,
      ap u8_text (ap strip_sid reads.2 ∙ strip_sid-cut sid),
    )
