-- ===== src/Lock/Files.antt =====
-- The calls of node:fs/promises that src/state-repository/file-lock-facade.ts makes, on files by their
-- paths. A call may fail with the code that it is given, and then changes nothing.
use deepseek_harness_relay_m.Base.{String, Option, none, some, string_eq}
use deepseek_harness_relay_m.Base.Map
use deepseek_harness_relay_m.Base.Map.{Map}
use deepseek_harness_relay_m.Base.Result.{Result, ok, err}

-- The codes that the lock's code tells apart, and all others.
pub data Code : Type 0 where
  enoent eexist eperm enosys eopnotsupp failure : Code

-- What a file holds: a text in UTF-8 without a mark, or bytes that are none.
pub data Content : Type 0 where
  text : String → Content
  undecodable : Content

abbrev pub Files : Type 0
Files = Map String Content

abbrev pub Done : Type 0
Done = Result Code (Unit {0}) × Files

move : Option Content → Files → String → String → Done
move none files from_path to_path = (err enoent, files)
move (some content) files from_path to_path =
    (ok tt, Map.set (Map.delete files from_path) to_path content)

unfoldable pub rename : Option Code → Files → String → String → Done
unfolding move
rename (some code) files from_path to_path = (err code, files)
rename none files from_path to_path = move (Map.get files from_path) files from_path to_path

join : Option Content → Option Content → Files → String → Done
join none target files to_path = (err enoent, files)
join (some content) (some taken) files to_path = (err eexist, files)
join (some content) none files to_path = (ok tt, Map.set files to_path content)

-- A second name for a file, where the name is free.
unfoldable pub link : Option Code → Files → String → String → Done
unfolding join
link (some code) files from_path to_path = (err code, files)
link none files from_path to_path =
    join (Map.get files from_path) (Map.get files to_path) files to_path

remove : Option Content → Files → String → Done
remove none files path = (err enoent, files)
remove (some content) files path = (ok tt, Map.delete files path)

unfoldable pub unlink : Option Code → Files → String → Done
unfolding remove
unlink (some code) files path = (err code, files)
unlink none files path = remove (Map.get files path) files path

start : Option Content → Files → String → Done
start (some content) files path = (err eexist, files)
start none files path = (ok tt, Map.set files path (text ""))

-- `open(path, 'wx')`
unfoldable pub create : Option Code → Files → String → Done
unfolding start
create (some code) files path = (err code, files)
create none files path = start (Map.get files path) files path

-- `writeFile`, `sync` and `close` of an open file; a failure leaves what was written until then.
unfoldable pub write : Option Content → Files → String → String → Done
write (some partial) files path body = (err failure, Map.set files path partial)
write none files path body = (ok tt, Map.set files path (text body))

-- `permissions.restrict`, which leaves the content.
unfoldable pub restrict : Option Code → Files → Done
restrict (some code) files = (err code, files)
restrict none files = (ok tt, files)
