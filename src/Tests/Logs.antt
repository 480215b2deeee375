-- ===== src/Tests/Logs.antt =====
-- The log handler.
use wc3ts.Prelude.{◌≡◌, refl, true, List, [], ◌∷◌, ◌++◌, some, codes}
use wc3ts.Prelude.Int.{pos, negsuc}
use wc3ts.Logging.{Attr, LogRecord, new_handler, enabled, handle}
use wc3ts.Logging.Derived.{Derivation, attrs_added, group_opened, derive, added, line, derive_lem}

abbrev attr : Attr
attr = record { key = codes "port"; value = codes "6112" }

abbrev entry : LogRecord
entry = record {
  time = codes "12:00:00";
  level_text = codes "INFO";
  message = codes "ready";
  attrs = attr ∷ [];
}

abbrev steps : List Derivation
steps = group_opened (codes "lan") ∷ attrs_added (record attr { key = codes "at" } ∷ []) ∷ []

derive_lem_example :
    (handle true entry (derive steps (new_handler (negsuc 3)))
      ≡ some (line entry (entry.attrs ++ added steps)))
    × (enabled (pos 0) (derive steps (new_handler (negsuc 3))) ≡ true)
derive_lem_example = derive_lem (negsuc 3) steps true entry (pos 0)

handle_runs : handle true entry (new_handler (pos 0)) ≡ some (codes "12:00:00 INFO ready port=6112")
unfolding handle new_handler
handle_runs = refl
