-- ===== src/Service/Port.antt =====
-- service_c/rbport.c: a message of the driver on the service's side.
pub mod Deliver
use recyclebin_svc.Base.{
  ℕ, Bool, true, false, not, ◌||◌, Option, none, some, WideString, ltb, ◌==◌, if◌then◌else◌,
}
use recyclebin_svc.Driver.State.{Note, rbf_notify_magic, notification_size}
use recyclebin_svc.Service.Db.{Table, db_add_item}

-- `PortHandleMessage` on a message of which `avail` bytes came in.
unfoldable pub port_handle_message : Bool → ℕ → (WideString → WideString) → Note → ℕ → Table → Table
port_handle_message sql_ok now client note avail t =
    if ltb avail notification_size
      || not (note.magic == rbf_notify_magic)
      || ltb note.total_size notification_size
      || ltb avail note.total_size
    then t
    else (db_add_item sql_ok now client note t).1
