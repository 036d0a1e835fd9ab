-- ===== src/Tracker/Find.antt =====
-- pkg/ttlcleaner/tracker.go: the nested maps `tables`, as one map from a table and an address text.
use opn_box.Base.{
  ◌≡◌, refl, ◌&&◌, Option, none, some, [], ◌∷◌, Bytes, bytes_eq, bytes_eq_iff, arith, if◌then◌else◌,
  ap,
}
use opn_box.Base.Dict.{Dict, lookup, put, remove, lookup-put, lookup-remove, lookup-nil, remove-nil}
use opn_box.Tracker.Queue.{Ref}
use opn_box.Tracker.{find, table_map, store_or_drop, forget}

pub find-put :
    (tables : Dict (Dict Ref)) (table ip tb k : Bytes) (r : Ref)
    → find (put table (put ip r (table_map tables table)) tables) tb k
      ≡ (if bytes_eq table tb && bytes_eq ip k then some r else find tables tb k)
find-put tables table ip tb k r = ground (
  arith,
  lookup-put table tb (put ip r (table_map tables table)) tables,
  lookup-put ip k r (table_map tables table),
  bytes_eq_iff table tb,
)

pub table_map-put :
    (tables : Dict (Dict Ref)) (table tb : Bytes) (m : Dict Ref)
    → table_map (put table m tables) tb ≡ (if bytes_eq table tb then m else table_map tables tb)
table_map-put tables table tb m = ground (arith, lookup-put table tb m tables)

pub table_map-remove :
    (table tb : Bytes) (tables : Dict (Dict Ref))
    → table_map (remove table tables) tb ≡ (if bytes_eq table tb then [] else table_map tables tb)
table_map-remove table tb tables = ground (arith, lookup-remove table tb tables)

table_map-store_or_drop :
    (table tb : Bytes) (tables : Dict (Dict Ref)) (m : Dict Ref)
    → table_map (store_or_drop table m tables) tb
      ≡ (if bytes_eq table tb then m else table_map tables tb)
unfolding store_or_drop
table_map-store_or_drop table tb tables [] = table_map-remove table tb tables
table_map-store_or_drop table tb tables (x ∷ m) = table_map-put tables table tb (x ∷ m)

pub table_map-forget :
    (table ip tb : Bytes) (tables : Dict (Dict Ref))
    → table_map (forget table ip tables) tb
      ≡ (if bytes_eq table tb then remove ip (table_map tables tb) else table_map tables tb)
unfolding forget
table_map-forget table ip tb tables = by (lookup table tables) refl
  where
    by :
        (o : Option (Dict Ref))
        → lookup table tables ≡ o
        → table_map (forget table ip tables) tb
          ≡ (if bytes_eq table tb then remove ip (table_map tables tb) else table_map tables tb)
    by none e =
        rw (e, forget)
          (ground (
            arith,
            bytes_eq_iff table tb,
            ap (λ (x : Bytes). lookup x tables),
            e,
            remove-nil {V = Ref} ip,
          ))
    by (some m) e =
        rw (e, forget, table_map-store_or_drop table tb tables (remove ip m))
          (ground (arith, bytes_eq_iff table tb, ap (λ (x : Bytes). lookup x tables), e))

module _ (table ip tb k : Bytes) (tables : Dict (Dict Ref)) where
  find-store_or_drop :
      (m : Dict Ref)
      → find (store_or_drop table m tables) tb k
        ≡ (if bytes_eq table tb then lookup k m else find tables tb k)
  unfolding store_or_drop lookup
  find-store_or_drop [] = ground (arith, lookup-remove table tb tables)
  find-store_or_drop (x ∷ m) = ground (arith, lookup-put table tb (x ∷ m) tables)

  forget_by :
      (o : Option (Dict Ref))
      → lookup table tables ≡ o
      → find (forget table ip tables) tb k
        ≡ (if bytes_eq table tb && bytes_eq ip k then none else find tables tb k)
  unfolding forget
  forget_by none e = rw (e, forget) (ground (arith, bytes_eq_iff table tb, lookup-nil {V = Ref} k))
  forget_by (some m) e =
      rw (e, forget, find-store_or_drop (remove ip m), lookup-remove ip k m)
        (ground (arith, bytes_eq_iff table tb))

  pub find-forget :
      find (forget table ip tables) tb k
      ≡ (if bytes_eq table tb && bytes_eq ip k then none else find tables tb k)
  find-forget = forget_by (lookup table tables) refl
