-- ===== src/Tests/Service.antt =====
-- service_c/: volumes, destinations, rows and messages on concrete inputs.
use recyclebin_svc.Base.{
  ◌+◌, ℕ, suc, ◌≤◌, true, false, none, [], ◌∷◌, ◌++◌, ◌≡◌, ◌≢◌, refl, arith, WideString, drop, All,
}
use recyclebin_svc.Base.Wide.{wide, wide_eq, to_lower, at, backslash, colon}
use recyclebin_svc.Driver.Notify.{fill_note, clamp_bytes}
use recyclebin_svc.Driver.Notify.RoundTrip.{staged_note}
use recyclebin_svc.Service.Vol.{
  Volume, vol_nt_to_dos, best_volume, longer, device_matches, skip_separators,
}
use recyclebin_svc.Service.Vol.Match.{IsMatch, IsLongest, vol_nt_to_dos-IsLongest}
use recyclebin_svc.Service.Dest.{dot, has_dot_dot, prefix_allows, dest_is_allowed}
use recyclebin_svc.Service.Dest.Allowed.{IsBelow, dest_is_allowed-IsBelow, dest_is_allowed-slashes}
use recyclebin_svc.Service.Text.{u8_from}
use recyclebin_svc.Service.Db.{
  Item, staged, Table, sql_like, sql_like_escape, sort_items, insert_item, is_restorable,
  db_list_by_orig_path_prefix,
}
use recyclebin_svc.Service.Db.Like.{sql_like-escape}
use recyclebin_svc.Service.Db.Order.{IsSorted}
use recyclebin_svc.Service.Db.Listing.{IsHit, db_list_by_orig_path_prefix_sound}
use recyclebin_svc.Service.Port.{port_handle_message}
use recyclebin_svc.Service.Port.Deliver.{staged_note-delivered}

pub not_nul : (n : ℕ) → suc n ≢ 0
not_nul n e = absurd (omega arith)

abbrev pub volume_d : Volume
volume_d = record { device = wide "\\V1"; letter = b'D'; dev_len = 3 }

vol_nt_to_dos-IsLongest_example :
    (v : Volume) × IsMatch (wide "\\V1\\a") (volume_d ∷ []) v
    × IsLongest (wide "\\V1\\a") (volume_d ∷ []) v.dev_len
    × (wide "D:\\a"
        ≡ v.letter ∷ colon ∷ backslash ∷ skip_separators (drop v.dev_len (wide "\\V1\\a")))
unfolding vol_nt_to_dos best_volume longer device_matches skip_separators wide_eq to_lower
vol_nt_to_dos-IsLongest_example =
    vol_nt_to_dos-IsLongest (volume_d ∷ []) (wide "\\V1\\a") (wide "D:\\a") refl

dest_is_allowed-IsBelow_example :
    (at (wide "D:\\S") 0 ≢ backslash)
    × (at (wide "D:\\S") 1 ≡ colon)
    × IsBelow (wide "d:\\s" ∷ []) (wide "D:\\S")
    × (wide "D:\\S" ≢ wide "D:\\" ++ dot ∷ dot ∷ [])
unfolding dest_is_allowed has_dot_dot prefix_allows wide_eq to_lower
dest_is_allowed-IsBelow_example =
    dest_is_allowed-IsBelow (wide "d:\\s" ∷ []) (wide "D:\\S") (wide "D:\\") []
      (not_nul 67, (not_nul 57, (not_nul 91, (not_nul 82, tt)))) tt refl

dest_is_allowed-slashes_example :
    dest_is_allowed (wide "D:\\S" ∷ []) (wide "D:\\S\\../../Windows") ≡ true
dest_is_allowed-slashes_example =
    dest_is_allowed-slashes (wide "D:\\S") (wide "Windows") (λ e. omega arith) (λ e. omega arith)
      refl
      ((λ e. omega arith), ((λ e. omega arith), ((λ e. omega arith), ((λ e. omega arith), tt))))
      (
        (λ e. omega arith),
        (
          (λ e. omega arith),
          (
            (λ e. omega arith),
            (
              (λ e. omega arith),
              ((λ e. omega arith), ((λ e. omega arith), ((λ e. omega arith), tt))),
            ),
          ),
        ),
      )

sql_like-escape_example :
    sql_like false (sql_like_escape (wide "a_%") ++ b'%' ∷ []) (wide "A_%b") ≡ true
unfolding wide_eq to_lower
sql_like-escape_example = sql_like-escape (wide "a_%") (wide "A_%b")

abbrev pub row_1 : Item
row_1 = record {
  id = 1;
  orig_path = wide "\\V1\\S\\b";
  orig_path_dos = [];
  store_path = wide "\\V1\\R\\1_b";
  sid = wide "S";
  session_id = 0;
  client_ip = [];
  delete_time = 10;
  file_size = 3;
  is_dir = 0;
  status = staged;
  recycle_path = [];
}

abbrev pub table_1 : Table
table_1 = record { rows = row_1 ∷ []; next_id = 2 }

db_list_by_orig_path_prefix_sound_example :
    IsSorted (row_1 ∷ []) × All (IsHit (wide "\\v1\\s")) (row_1 ∷ []) × (1 ≤ 9)
unfolding db_list_by_orig_path_prefix is_restorable sql_like sql_like_escape sort_items insert_item
    to_lower
db_list_by_orig_path_prefix_sound_example =
    db_list_by_orig_path_prefix_sound (wide "\\v1\\s") 9 table_1 (row_1 ∷ []) (omega arith)
      (omega arith) (omega arith) refl

abbrev ticking : ℕ → ℕ
ticking n = 99 + n

abbrev pub no_client : WideString → WideString
no_client sid = []

staged_note-delivered_example :
    (row : Item) × (port_handle_message true 5 no_client
        (staged_note (wide "a") (wide "b") (wide "\\S") 1 none)
        5000
        table_1
      ≡ record { rows = row_1 ∷ row ∷ []; next_id = 3 })
    × (row.id ≡ 2)
    × (row.status ≡ staged)
    × (row.orig_path ≡ wide "a")
    × (row.store_path ≡ wide "b")
    × (row.sid ≡ wide "S")
unfolding fill_note clamp_bytes u8_from
staged_note-delivered_example =
    staged_note-delivered 5 no_client (wide "a") (wide "b") (wide "S") 1 none 5000 table_1
      (not_nul 96, tt) (not_nul 97, tt) (not_nul 82, tt) (omega arith)
