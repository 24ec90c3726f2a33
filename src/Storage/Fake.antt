-- ===== src/Storage/Fake.antt =====
-- internal/storage/fake/fake.go: the in-memory store with conditional writes. The fault engine of
-- inject.go is an interface, whose state the store holds; the tag of crypto/md5 is a parameter.
pub mod Lawful
use slivingdoc.Base.{
  Bool, true, false, ◌||◌, Option, none, some, List, [], ◌∷◌, ◌==◌, bytes_eq, Bytes, if◌then◌else◌,
  Result, ok, err, contains, lookup, not, map,
}
use slivingdoc.Storage.Names.{join_key}
use slivingdoc.Storage.Store.{StoreError, Held, ObjectStore}

pub data Op : Type 0 where
  get create replace delete : Op

-- `WaitForBarrier`, `ConsumeFail` and `ConsumeAmbiguous` of `Injector`.
pub record Faults (F : Type 0) : Type 0 where
  pub wait_for_barrier : F → Op → Bytes → Option StoreError × F
  pub consume_fail : F → Op → Bytes → Option StoreError × F
  pub consume_ambiguous : F → Op → Bytes → Bool × F

-- The map of the objects as the list of its writes; `calls` lists the operations, newest first.
pub record Memory (F : Type 0) : Type 0 where
  pub faults : F
  pub prefix : Bytes
  pub objects : List (Bytes × Held)
  pub calls : List Op

-- `delete(s.objects, key)` for every key.
abbrev pub remove_keys : List Bytes → List (Bytes × Held) → List (Bytes × Held)
remove_keys keys [] = []
remove_keys keys ((k, h) ∷ m) =
    let rest = remove_keys keys m in if contains keys k then rest else (k, h) ∷ rest

module _ {F : Type 0} (engine : Faults F) (etag_for : Bytes → Bytes) where
  abbrev full : Memory F → Bytes → Bytes
  full s key = join_key s.prefix key

  abbrev pub held : Memory F → Bytes → Option Held
  held s key = lookup (full s key) s.objects

  -- The start of every method: the barrier, the count of the call, and an injected failure.
  abbrev pub failed : Op → Memory F → Option StoreError × F → Option StoreError × Memory F
  failed op s (some e, f) = (some e, record s { faults = f; calls = op ∷ s.calls })
  failed op s (none, f) = (none, record s { faults = f; calls = op ∷ s.calls })

  abbrev pub after_barrier :
      Op → Bytes → Memory F → Option StoreError × F → Option StoreError × Memory F
  after_barrier op key s (some e, f) = (some e, record s { faults = f })
  after_barrier op key s (none, f) = failed op s (engine.consume_fail f op key)

  unfoldable pub begin : Op → Bytes → Memory F → Option StoreError × Memory F
  begin op key s = after_barrier op key s (engine.wait_for_barrier s.faults op key)

  abbrev pub found : Option Held → Result StoreError Held
  found none = err StoreError.not_found
  found (some h) = ok h

  abbrev pub reading : Bytes → Option StoreError × Memory F → Result StoreError Held × Memory F
  reading key (some e, s) = (err e, s)
  reading key (none, s) = (found (held s key), s)

  abbrev pub answered : Memory F → Bool × F → Option StoreError × Memory F
  answered s (true, f) = (some StoreError.transport, record s { faults = f })
  answered s (false, f) = (none, record s { faults = f })

  abbrev pub written : Op → Bytes → Bytes → Memory F → Option StoreError × Memory F
  written op key contents s =
      let object : Held = record { contents = contents; etag = etag_for contents } in
      answered (record s { objects = (full s key, object) ∷ s.objects })
        (engine.consume_ambiguous s.faults op key)

  abbrev pub create_absent : Bytes → Bytes → Memory F → Option Held → Option StoreError × Memory F
  create_absent key contents s (some h) = (some StoreError.precondition_failed, s)
  create_absent key contents s none = written Op.create key contents s

  abbrev pub creating : Bytes → Bytes → Option StoreError × Memory F → Option StoreError × Memory F
  creating key contents (some e, s) = (some e, s)
  creating key contents (none, s) = create_absent key contents s (held s key)

  -- `!ok || o.etag != etag`
  abbrev pub replace_tagged :
      Bytes → Bytes → Bytes → Memory F → Option Held → Option StoreError × Memory F
  replace_tagged key etag contents s none = (some StoreError.precondition_failed, s)
  replace_tagged key etag contents s (some h) =
      if h.etag == etag
      then written Op.replace key contents s
      else (some StoreError.precondition_failed, s)

  abbrev pub replacing :
      Bytes → Bytes → Bytes → Option StoreError × Memory F → Option StoreError × Memory F
  replacing key etag contents (some e, s) = (some e, s)
  replacing key etag contents (none, s) = replace_tagged key etag contents s (held s key)

  abbrev pub deleting : List Bytes → Option StoreError × Memory F → Option StoreError × Memory F
  deleting keys (some e, s) = (some e, s)
  deleting keys (none, s) = (none, record s { objects = remove_keys (map (full s) keys) s.objects })

  abbrev pub memory_store : ObjectStore (Memory F)
  memory_store = record {
    read_object = λ s key. reading key (begin Op.get key s);
    create_object = λ s key contents. creating key contents (begin Op.create key s);
    replace_object = λ s key etag contents. replacing key etag contents (begin Op.replace key s);
    delete_objects = λ s keys. deleting keys (begin Op.delete [] s);
  }
