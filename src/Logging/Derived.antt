-- ===== src/Logging/Derived.antt =====
-- tui/handler.go: derived handlers.
use wc3ts.Prelude.{
  ◌≡◌, refl, sym, ap, ◌∙◌, Bool, List, [], ◌∷◌, ◌++◌, append_assoc, append-nil, map, none, some,
  Bytes, codes, if◌then◌else◌,
}
use wc3ts.Prelude.Int.{ℤ, int_leb}
use wc3ts.Logging.{
  Attr, LogRecord, Handler, new_handler, enabled, write_attrs, handle, with_attrs, with_group,
}

-- The ways to derive a handler.
pub data Derivation : Type 0 where
  attrs_added : List Attr → Derivation
  group_opened : Bytes → Derivation

pub derive : List Derivation → Handler → Handler
derive [] h = h
derive (attrs_added attrs ∷ ds) h = derive ds (with_attrs attrs h)
derive (group_opened name ∷ ds) h = derive ds (with_group name h)

pub added : List Derivation → List Attr
added [] = []
added (attrs_added attrs ∷ ds) = attrs ++ added ds
added (group_opened name ∷ ds) = added ds

-- Words with a space in front of each.
pub spaced : List Bytes → Bytes
spaced [] = []
spaced (w ∷ ws) = codes " " ++ (w ++ spaced ws)

abbrev pub attr_text : Attr → Bytes
attr_text a = a.key ++ codes "=" ++ a.value

-- A line: the time, and then the level, the message and the attributes, each behind a space.
pub line : LogRecord → List Attr → Bytes
line r attrs = r.time ++ spaced (r.level_text ∷ r.message ∷ map attr_text attrs)

attrs-derive :
    (ds : List Derivation) (h : Handler)
    → ((derive ds h).attrs ≡ h.attrs ++ added ds) × ((derive ds h).level ≡ h.level)
unfolding derive added with_attrs with_group
attrs-derive [] h = (sym (append-nil h.attrs), refl)
attrs-derive (attrs_added attrs ∷ ds) h =
    let (a, l) = attrs-derive ds (with_attrs attrs h) in
    (a ∙ append_assoc h.attrs attrs (added ds), l)
attrs-derive (group_opened name ∷ ds) h = attrs-derive ds (with_group name h)

write_attrs-spaced :
    (attrs : List Attr) (b : Bytes) → write_attrs attrs b ≡ b ++ spaced (map attr_text attrs)
unfolding write_attrs spaced
write_attrs-spaced [] b = sym (append-nil b)
write_attrs-spaced (a ∷ attrs) b = write_attrs-spaced attrs _ ∙ simp append_assoc

write_attrs-append :
    (xs ys : List Attr) (b : Bytes) → write_attrs ys (write_attrs xs b) ≡ write_attrs (xs ++ ys) b
unfolding write_attrs
write_attrs-append [] ys b = refl
write_attrs-append (x ∷ xs) ys b = write_attrs-append xs ys _

write_attrs-line :
    (r : LogRecord) (attrs : List Attr)
    → write_attrs attrs
        (write_attrs r.attrs ((((r.time ++ codes " ") ++ r.level_text) ++ codes " ") ++ r.message))
      ≡ line r (r.attrs ++ attrs)
unfolding line spaced
write_attrs-line r attrs =
    write_attrs-append r.attrs attrs _ ∙ write_attrs-spaced (r.attrs ++ attrs) _ ∙ simp append_assoc

-- A handler that is derived in any number of steps has the level of the first one. If the interface
-- is ready, it sends a record as one line, with the attributes of the record and then those that the
-- steps added, in order; names of groups do not appear. If the interface is not ready, nothing is
-- sent.
pub derive_lem :
    (level : ℤ) (ds : List Derivation) (ready : Bool) (r : LogRecord) (l : ℤ)
    → (handle ready r (derive ds (new_handler level))
        ≡ (if ready then some (line r (r.attrs ++ added ds)) else none))
      × (enabled l (derive ds (new_handler level)) ≡ int_leb level l)
unfolding handle line new_handler enabled
derive_lem level ds ready r l =
    let (attrs, same_level) = attrs-derive ds (new_handler level) in
    (
      ap (λ x. if ready then some x else none)
          (ap
              (λ x. write_attrs x (
                write_attrs r.attrs
                  ((((r.time ++ codes " ") ++ r.level_text) ++ codes " ") ++ r.message)))
              attrs
            ∙ write_attrs-line r (added ds)),
      ap (λ x. int_leb x l) same_level,
    )
