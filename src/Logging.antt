-- ===== src/Logging.antt =====
-- tui/handler.go: the log handler, which sends each record as a line to the terminal interface. The
-- flag `ready` is shared by a handler and all that are derived from it, so it is passed beside them.
-- Times, levels and values come as the texts that Go prints for them.
pub mod Derived
use wc3ts.Prelude.{
  Bool, true, false, List, [], ◌∷◌, ◌++◌, Option, none, some, Bytes, codes, if◌then◌else◌,
}
use wc3ts.Prelude.Int.{ℤ, int_leb}

pub record Attr : Type 0 where
  pub key : Bytes
  pub value : Bytes

pub record LogRecord : Type 0 where
  pub time : Bytes
  pub level_text : Bytes
  pub message : Bytes
  pub attrs : List Attr

pub record Handler : Type 0 where
  pub level : ℤ
  pub attrs : List Attr
  pub groups : List Bytes

unfoldable pub new_handler : ℤ → Handler
new_handler level = record { level = level; attrs = []; groups = [] }

unfoldable pub enabled : ℤ → Handler → Bool
enabled level h = int_leb h.level level

-- the two loops that write attributes, with what is written so far
pub write_attrs : List Attr → Bytes → Bytes
write_attrs [] b = b
write_attrs (a ∷ attrs) b = write_attrs attrs (((b ++ codes " ") ++ a.key) ++ codes "=" ++ a.value)

-- `Handle`: the message that is sent, if the interface is ready
unfoldable pub handle : Bool → LogRecord → Handler → Option Bytes
unfolding write_attrs
handle ready r h =
    let b = (((r.time ++ codes " ") ++ r.level_text) ++ codes " ") ++ r.message in
    if ready then some (write_attrs h.attrs (write_attrs r.attrs b)) else none

pub with_attrs : List Attr → Handler → Handler
with_attrs attrs h = record h { attrs = h.attrs ++ attrs }

pub with_group : Bytes → Handler → Handler
with_group name h = record h { groups = h.groups ++ name ∷ [] }
