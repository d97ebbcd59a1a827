-- ===== src/Service/Db.antt =====
-- service_c/rbdb.c: the rows of `items`, and the statements that read and write them. A table is its
-- rows in rowid order. Text columns are kept as the WCHARs that reading them gives, NULL as the empty
-- string, times in whole seconds. Whether SQLite carries a statement out is an argument.
pub mod Known
pub mod Like
pub mod Order
pub mod Listing
pub mod Reap
pub mod Recorded
pub mod Rows
use recyclebin_svc.Base.{
  ℕ, zero, suc, ◌+◌, ◌-◌, ◌*◌, Bool, true, false, not, ◌&&◌, ◌||◌, Option, none, some, List, [],
  ◌∷◌, ◌++◌, map, WideString, ltb, leb, ◌==◌, if◌then◌else◌, length, take, drop, filter_by,
}
use recyclebin_svc.Base.Wide.{backslash, at, wide_eq, to_lower}
use recyclebin_svc.Service.Text.{u8_text}
use recyclebin_svc.Driver.State.{Note}
use recyclebin_svc.Driver.Notify.{notify_path, notify_store_path, notify_sid}

pub data ItemStatus : Type 0 where
  staged landed restored purged : ItemStatus

-- RBSVC_ITEM
pub record Item : Type 0 where
  pub id : ℕ
  pub orig_path : WideString
  pub orig_path_dos : WideString
  pub store_path : WideString
  pub sid : WideString
  pub session_id : ℕ
  pub client_ip : WideString
  pub delete_time : ℕ
  pub file_size : ℕ
  pub is_dir : ℕ
  pub status : ItemStatus
  pub recycle_path : WideString

-- The table, and the next value of its AUTOINCREMENT id.
pub record Table : Type 0 where
  pub rows : List Item
  pub next_id : ℕ

-- status IN ('landed','staged')
abbrev pub is_live : Item → Bool
is_live item = elim item.status [
  | staged ↦ true
  | landed ↦ true
  | restored ↦ false
  | purged ↦ false
]

unfoldable pub sql_like_escape : WideString → WideString
sql_like_escape [] = []
sql_like_escape (c ∷ s) =
    let rest = sql_like_escape s in
    if c == b'%' || c == b'_' || c == backslash then backslash ∷ c ∷ rest else c ∷ rest

-- SQL's LIKE with ESCAPE '\\', which folds A to Z.
abbrev pub literal : ℕ → (WideString → Bool) → WideString → Bool
literal c next [] = false
literal c next (t ∷ ts) = to_lower c == to_lower t && next ts

abbrev pub any_suffix : (WideString → Bool) → WideString → Bool
any_suffix next [] = next []
any_suffix next (t ∷ ts) = next (t ∷ ts) || any_suffix next ts

abbrev pub one_char : (WideString → Bool) → WideString → Bool
one_char next [] = false
one_char next (t ∷ ts) = next ts

-- `escaped` says that the escape character has just been read.
unfoldable pub sql_like : Bool → WideString → WideString → Bool
sql_like true [] text = false
sql_like false [] text = length text == 0
sql_like true (c ∷ ps) text = literal c (sql_like false ps) text
sql_like false (c ∷ ps) text =
    let next = sql_like false ps in
    let escaped = sql_like true ps in
    if c == backslash
    then escaped text
    else if c == b'%'
    then any_suffix next text
    else if c == b'_'
    then one_char next text
    else literal c next text

-- One text is no later than another, by the order of their units.
unfoldable pub text_le : WideString → WideString → Bool
text_le [] b = true
text_le (x ∷ a) [] = false
text_le (x ∷ a) (y ∷ b) = if x == y then text_le a b else ltb x y

-- SQLite compares the bytes of UTF-8, which is by code points: the two halves of a pair come behind the
-- units from U+E000 on.
unfoldable pub code_key : ℕ → ℕ
code_key c = if leb 57344 c then c - 2048 else if leb 55296 c then c + 8192 else c

abbrev pub sql_le : WideString → WideString → Bool
sql_le a b = text_le (map code_key a) (map code_key b)

-- ORDER BY orig_path ASC
unfoldable pub insert_item : Item → List Item → List Item
insert_item item [] = item ∷ []
insert_item item (i ∷ items) =
    let rest = insert_item item items in
    if sql_le item.orig_path i.orig_path then item ∷ i ∷ items else i ∷ rest

unfoldable pub sort_items : List Item → List Item
sort_items [] = []
sort_items (i ∷ items) = insert_item i (sort_items items)

abbrev pub rbsvc_max_tree_restore : ℕ
rbsvc_max_tree_restore = 5000

abbrev pub rbsvc_max_tree_prefix : ℕ
rbsvc_max_tree_prefix = 512

-- The WHERE clause of the tree query. Its prefix comes from the database, so that WToU8 leaves it as it
-- is.
unfoldable pub is_restorable : WideString → Item → Bool
is_restorable prefix item =
    sql_like false (sql_like_escape prefix ++ b'%' ∷ []) item.orig_path && is_live item

-- `DbListByOrigPathPrefix`; none is -1.
unfoldable pub db_list_by_orig_path_prefix : Bool → WideString → ℕ → Table → Option (List Item)
db_list_by_orig_path_prefix sql_ok prefix limit t =
    if length prefix == 0
    then some []
    else if ltb rbsvc_max_tree_prefix (length prefix)
    then none
    else if not sql_ok
    then none
    else some (
        take (if ltb 0 limit then limit else rbsvc_max_tree_restore)
          (sort_items (filter_by (is_restorable prefix) t.rows)))

-- 1 and 0 as true and false, -1 as none
abbrev pub any_row : (Item → Bool) → List Item → Bool
any_row p [] = false
any_row p (i ∷ items) = p i || any_row p items

unfoldable pub db_store_path_exists : Bool → WideString → Table → Option Bool
db_store_path_exists sql_ok path t =
    if sql_ok then some (any_row (λ i. wide_eq i.store_path (u8_text path)) t.rows) else none

abbrev pub def_terminal_keep_days : ℕ
def_terminal_keep_days = 90

abbrev pub rbsvc_max_reap_per_pass : ℕ
rbsvc_max_reap_per_pass = 50000

-- status IN ('restored','purged') AND delete_time < now - keepDays * 86400
abbrev pub is_reapable : ℕ → ℕ → Item → Bool
is_reapable now keep_days i = not (is_live i) && ltb (i.delete_time + keep_days * 86400) now

-- DELETE … WHERE id IN (SELECT … LIMIT `room`), the first rows first, and how many went.
unfoldable pub delete_batch : (Item → Bool) → ℕ → List Item → List Item × ℕ
delete_batch p room [] = ([], 0)
delete_batch p zero (i ∷ items) = (i ∷ items, 0)
delete_batch p (suc room) (i ∷ items) =
    let gone = delete_batch p room items in
    let kept = delete_batch p (suc room) items in
    if p i then (gone.0, suc gone.1) else (i ∷ kept.0, kept.1)

-- The loop on fuel, from the round `n` on, with the total so far; none if the fuel runs out. The
-- outcome of a round's statement is `sql_ok n`, and what it may delete is `p n`, since each round reads
-- the time; a failed statement ends the pass with -1, what was deleted before it stays deleted.
unfoldable pub reap_loop :
    (ℕ → Bool) → (ℕ → Item → Bool) → ℕ → ℕ → ℕ → List Item → Option ℕ × List Item
reap_loop sql_ok p zero n total rows = (none, rows)
reap_loop sql_ok p (suc fuel) n total rows =
    let batch = delete_batch (p n) 1000 rows in
    let more = reap_loop sql_ok p fuel (suc n) (total + batch.1) batch.0 in
    if not (sql_ok n)
    then (none, rows)
    else if ltb 0 batch.1 && ltb (total + batch.1) rbsvc_max_reap_per_pass
    then more
    else (some (total + batch.1), batch.0)

abbrev pub kept_days : ℕ → ℕ
kept_days keep_days = if keep_days == 0 then def_terminal_keep_days else keep_days

-- The time that the round `n` reads is `now n`. Each round but the last deletes a row: one round more
-- than there are rows is enough.
unfoldable pub db_reap_terminal_rows : (ℕ → Bool) → (ℕ → ℕ) → ℕ → Table → Option ℕ × Table
db_reap_terminal_rows sql_ok now keep_days t =
    let r =
      reap_loop sql_ok (λ n. is_reapable (now n) (kept_days keep_days)) (suc (length t.rows)) 0 0
        t.rows in
    (r.0, record t { rows = r.1 })

-- The SID without the separator that the driver puts in front, cut to its buffer.
abbrev pub strip_sid : WideString → WideString
strip_sid [] = []
strip_sid (c ∷ s) = take 255 (if c == backslash then s else c ∷ s)

-- The row of a notification.
abbrev pub item_of : ℕ → ℕ → (WideString → WideString) → Note → Item
item_of id now client note = record {
  id = id;
  orig_path = u8_text (notify_path note);
  orig_path_dos = [];
  store_path = u8_text (notify_store_path note);
  sid = u8_text (strip_sid (notify_sid note));
  session_id = note.session_id;
  client_ip = u8_text (client (strip_sid (notify_sid note)));
  delete_time = now;
  file_size = note.file_size;
  is_dir = note.is_directory;
  status = staged;
  recycle_path = [];
}

-- `DbAddItem`: the new id, or none for -1. `client` is the answer of the session snapshot for the
-- SID, the empty string if it knows none.
unfoldable pub db_add_item : Bool → ℕ → (WideString → WideString) → Note → Table → Option ℕ × Table
db_add_item sql_ok now client note t =
    if sql_ok
    then (
      some t.next_id,
      record { rows = t.rows ++ item_of t.next_id now client note ∷ []; next_id = suc t.next_id },
    )
    else (none, t)

-- UPDATE items SET … WHERE id=?, with texts that were made from what the database holds
unfoldable pub update_row : (Item → Item) → ℕ → List Item → List Item
update_row f id [] = []
update_row f id (i ∷ items) =
    let rest = update_row f id items in if i.id == id then f i ∷ rest else i ∷ rest

unfoldable pub db_set_status : Bool → ℕ → ItemStatus → Table → Bool × Table
db_set_status sql_ok id status t =
    if sql_ok
    then (true, record t { rows = update_row (λ i. record i { status = status }) id t.rows })
    else (false, t)

unfoldable pub db_set_landed : Bool → ℕ → WideString → WideString → Table → Bool × Table
db_set_landed sql_ok id recycle_path orig_path_dos t =
    if sql_ok
    then (
      true,
      record t {
        rows =
            update_row
              (λ i. record i {
                status = landed;
                recycle_path = recycle_path;
                orig_path_dos = orig_path_dos;
              })
              id t.rows;
      },
    )
    else (false, t)

unfoldable pub find_row : ℕ → List Item → Option Item
find_row id [] = none
find_row id (i ∷ items) = let rest = find_row id items in if i.id == id then some i else rest

unfoldable pub db_get_item : Bool → ℕ → Table → Option Item
db_get_item sql_ok id t = if sql_ok then find_row id t.rows else none
