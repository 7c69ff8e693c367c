-- ===== src/Storage/Disk.antt =====
-- The calls of package os that the store makes. A failed call changes no file.
use securevault.Base.{
  is_some, nat_eq, string_eq, Bytes, bytes_eq, lookup, without, insert, codes, no_object, internal,
  Option, none, some, [], ◌++◌,
}
use securevault.Platform.{Platform}
use securevault.Effect.{M, World, pure, ◌>>=◌, ◌>>◌, gets, modify, raise_if, or_raise, os_call}

abbrev pub content_at : Bytes → World → Option Bytes
content_at path w = lookup path w.disk

abbrev pub put_file : Bytes → Bytes → World → World
put_file path content w = record w { disk = insert path content w.disk }

abbrev pub drop_file : Bytes → World → World
drop_file path w = record w { disk = without path w.disk }

module _ (p : Platform) where
  -- os.CreateTemp in a directory, for a pattern that ends in `*`: a new, empty file.
  unfoldable pub create_temp : Bytes → Bytes → M Bytes
  unfolding os_call
  create_temp dir pattern = do
    t ← gets (λ w. w.step)
    os_call p
    let path = dir ++ codes "/" ++ pattern ++ p.temp_name t
    found ← gets (content_at path)
    raise_if (is_some found) internal
    modify (put_file path [])
    pure path

  -- Write at the end of an open file.
  unfoldable pub write : Bytes → Bytes → M (Unit {0})
  unfolding os_call
  write path part = do
    os_call p
    old ← gets (content_at path)
    modify (put_file path (elim old [ none ↦ part | some s ↦ s ++ part ]))

  -- os.Remove; `no_object` stands for os.ErrNotExist.
  unfoldable pub remove_file : Bytes → M (Unit {0})
  unfolding os_call
  remove_file path = do
    os_call p
    found ← gets (content_at path)
    _ ← or_raise found no_object
    modify (drop_file path)

  -- os.Rename, which replaces the target.
  unfoldable pub rename : Bytes → Bytes → M (Unit {0})
  unfolding os_call
  rename old new = do
    os_call p
    found ← gets (content_at old)
    content ← or_raise found internal
    modify (drop_file old)
    modify (put_file new content)

  -- os.ReadFile; `no_object` stands for os.ErrNotExist.
  unfoldable pub read_file : Bytes → M Bytes
  unfolding os_call
  read_file path = do os_call p; found ← gets (content_at path); or_raise found no_object
