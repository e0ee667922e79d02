-- ===== src/Simulator/Load.antt =====
-- `LoadMibsIntoEngine` of udp_server.go: the trees of the server, and the callback that stores
-- what `Read` gives. What it uses of the trees of mib_tree.go is the parameter `Trees`.
use snmpclient.Prelude.{
  bytes_eq, ◌≡◌, Bool, true, false, ◌||◌, Option, none, some, List, Bytes, Error, generic, Outcome,
  ok, ◌>>=◌, if◌then◌else◌, is_empty,
}
use snmpclient.Prelude.Int.{pos, eqb_ℤ}
use snmpclient.Oid.{Oid, compare_oid_and_value}
use snmpclient.Variable.{Variable}
use snmpclient.Variable.Text.{IpText}
use snmpclient.LineReader.Read.{Callback, read}
use snmpclient.Simulator.{OidAndValue}

-- What a tree holds, by name.
abbrev pub Values : Type 0
Values = Oid → Option Variable

-- The names that the comparison of the tree does not tell apart.
unfoldable pub same_key : Oid → Oid → Bool
same_key a b = eqb_ℤ (compare_oid_and_value a b) (pos 0)

unfoldable pub put : Oid → Variable → Values → Values
unfolding same_key
put o v f p = if same_key p o then some v else f p

unfoldable pub drop_key : Oid → Values → Values
unfolding same_key
drop_key o f p = if same_key p o then none else f p

-- The trees: `Insert` does nothing on a name that is there, and says so; `DeleteWithKey` deletes
-- a name that is there. Both give the tree that they leave.
pub record Trees : Type 1 where
  pub Tree : Type 0
  pub new_tree : Tree
  pub lookup : Tree → Values
  pub insert : Tree → OidAndValue → Tree × Bool
  pub delete_with_key : Tree → Oid → Tree × Bool
  pub new_tree_lem : (o : Oid) → lookup new_tree o ≡ none
  pub insert_present :
      (t : Tree) (x : OidAndValue) (v : Variable)
      → lookup t x.oid ≡ some v
      → insert t x ≡ (t, false)
  pub insert_absent :
      (t : Tree) (x : OidAndValue)
      → lookup t x.oid ≡ none
      → ((insert t x).1 ≡ true)
        × ((o : Oid) → lookup (insert t x).0 o ≡ put x.oid x.value (lookup t) o)
  pub delete_present :
      (t : Tree) (o : Oid) (v : Variable)
      → lookup t o ≡ some v
      → ((delete_with_key t o).1 ≡ true)
        × ((p : Oid) → lookup (delete_with_key t o).0 p ≡ drop_key o (lookup t) p)

-- The trees of a server.
pub record Stores (T : Type 0) : Type 0 where
  pub default_mibs : T
  pub by_engine : Bytes → Option T

unfoldable pub or_new : {T : Type 0} → T → Option T → T
or_new new none = new
or_new new (some t) = t

unfoldable pub put_engine : {T : Type 0} → Bytes → T → Stores T → Stores T
put_engine engine t m = record m {
  by_engine = λ k. if bytes_eq k engine then some t else m.by_engine k;
}

-- The tree that is filled is kept with what has been stored before an error.
module _ {T : Type 0} (new : T) (cb : Callback T) (ip : IpText) (re : Bytes → Bool) where
  unfoldable pub load_default :
      Bool → Option Error → List Bytes → Stores T → Outcome (Stores T × Option Error)
  load_default reset ending lines m = do
    (t, e) ← read ip re cb ending lines (if reset then new else m.default_mibs)
    ok (record m { default_mibs = t }, e)

  unfoldable pub load_engine :
      Bytes → Bool → Option Error → List Bytes → Stores T → Outcome (Stores T × Option Error)
  unfolding or_new put_engine
  load_engine engine reset ending lines m = do
    (t, e) ← read ip re cb ending lines (if reset then new else or_new new (m.by_engine engine))
    ok (put_engine engine t m, e)

  -- The community of the server, the engine identifier, and whether the tree is reset.
  unfoldable pub load_mibs :
      Bytes
      → Bytes
      → Bool
      → Option Error
      → List Bytes
      → Stores T
      → Outcome (Stores T × Option Error)
  unfolding load_default load_engine
  load_mibs community engine reset ending lines m =
      if is_empty engine || bytes_eq engine community
      then load_default reset ending lines m
      else load_engine engine reset ending lines m

module _ (trees : Trees) where
  -- Behind the second `Insert`, and behind a deletion.
  unfoldable pub after_insert : trees.Tree × Bool → trees.Tree × Option Error
  after_insert (t, true) = (t, none)
  after_insert (t, false) = (t, some generic)

  unfoldable pub insert_again : OidAndValue → trees.Tree × Bool → trees.Tree × Option Error
  unfolding after_insert
  insert_again x (t, false) = (t, some generic)
  insert_again x (t, true) = after_insert (trees.insert t x)

  -- The callback, behind the first `Insert`.
  unfoldable pub behind_insert : Bool → OidAndValue → trees.Tree × Bool → trees.Tree × Option Error
  unfolding insert_again
  behind_insert is_update x (t, true) = (t, none)
  behind_insert is_update x (t, false) =
      if is_update then insert_again x (trees.delete_with_key t x.oid) else (t, some generic)

  unfoldable pub store : Bool → Callback trees.Tree
  unfolding behind_insert
  store is_update t o v =
      let x : OidAndValue = record { oid = o; value = v } in
      behind_insert is_update x (trees.insert t x)
