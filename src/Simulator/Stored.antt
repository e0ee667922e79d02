-- ===== src/Simulator/Stored.antt =====
-- `LoadMibsIntoEngine` of udp_server.go is the loading of values by name.
use snmpclient.Prelude.{
  ◌≡◌, refl, ap, ◌∙◌, Bool, true, false, ◌||◌, Option, none, some, List, Bytes, Error, Outcome, ok,
  err, panic, no_fuel, ◌>>=◌, if◌then◌else◌, is_empty, bytes_eq,
}
use snmpclient.Variable.Text.{IpText}
use snmpclient.LineReader.Read.{read}
use snmpclient.LineReader.Homomorphism.{mapped, seen, mapped-read}
use std.Path.{fun_ext}
use snmpclient.Simulator.Load.{
  Values, Trees, Stores, or_new, put_engine, load_default, load_engine, load_mibs, store,
}
use snmpclient.Simulator.Values.{no_values, store_value, seen-store}

-- The trees of a server, seen through a function on trees.
unfoldable pub seen_option : {S T : Type 0} → (S → T) → Option S → Option T
seen_option h none = none
seen_option h (some t) = some (h t)

unfoldable pub seen_stores : {S T : Type 0} → (S → T) → Stores S → Stores T
unfolding seen_option
seen_stores h m = record {
  default_mibs = h m.default_mibs;
  by_engine = λ k. seen_option h (m.by_engine k);
}

module _ {S T : Type 0} (h : S → T) where
  bind_seen :
      (f : S → Stores S) (g : T → Stores T) (o : Outcome (S × Option Error))
      → ((t : S) → seen_stores h (f t) ≡ g (h t))
      → mapped (seen (seen_stores h)) (o >>= λ (t, e). ok (f t, e))
        ≡ (mapped (seen h) o >>= λ (t, e). ok (g t, e))
  unfolding mapped seen
  bind_seen f g (ok (t, e)) same = ap (λ m. ok (m, e)) (same t)
  bind_seen f g (err e) same = refl
  bind_seen f g panic same = refl
  bind_seen f g no_fuel same = refl

  put_seen :
      (engine : Bytes) (t : S) (m : Stores S)
      → seen_stores h (put_engine engine t m) ≡ put_engine engine (h t) (seen_stores h m)
  unfolding seen_stores put_engine seen_option
  put_seen engine t m =
      ap (λ f. record { default_mibs = h m.default_mibs; by_engine = f })
        (fun_ext (λ k. choice (bytes_eq k engine) (m.by_engine k)))
    where
      choice :
          (b : Bool) (o : Option S)
          → seen_option h (if b then some t else o) ≡ (if b then some (h t) else seen_option h o)
      choice true o = refl
      choice false o = refl

  start_seen :
      (reset : Bool) (new : S) (o : Option S)
      → h (if reset then new else or_new new o)
        ≡ (if reset then h new else or_new (h new) (seen_option h o))
  unfolding or_new seen_option
  start_seen true new o = refl
  start_seen false new none = refl
  start_seen false new (some t) = refl

  default_start :
      (reset : Bool) (new t : S) → h (if reset then new else t) ≡ (if reset then h new else h t)
  default_start true new t = refl
  default_start false new t = refl

-- Loading into the trees and then looking at what they hold by name is loading values by name: the
-- outcome, the error and the tree that is filled are the same. By name, a value is put at a name
-- that is not there; at one that is there it takes the place of the value if the server updates,
-- and is otherwise an error that ends the loading and keeps what is there.
pub mapped-load_mibs :
    (trees : Trees) (is_update : Bool) (ip : IpText) (re : Bytes → Bool) (community engine : Bytes)
    (reset : Bool) (ending : Option Error) (lines : List Bytes) (m : Stores trees.Tree)
    → mapped (seen (seen_stores trees.lookup)) (
        load_mibs trees.new_tree
          (store trees is_update)
          ip
          re
          community
          engine
          reset
          ending
          lines
          m)
      ≡ load_mibs no_values
          (store_value is_update)
          ip
          re
          community
          engine
          reset
          ending
          lines
          (seen_stores trees.lookup m)
unfolding load_mibs load_default load_engine seen_stores
mapped-load_mibs trees u ip re community engine reset ending lines m =
    choice (is_empty engine || bytes_eq engine community)
  where
    h : trees.Tree → Values
    h = trees.lookup

    new_seen : h trees.new_tree ≡ no_values
    new_seen = fun_ext trees.new_tree_lem

    both :
        (f : trees.Tree → Stores trees.Tree) (g : Values → Stores Values) (t : trees.Tree)
        (w : Values)
        → ((s : trees.Tree) → seen_stores h (f s) ≡ g (h s))
        → h t ≡ w
        → mapped
            (seen (seen_stores h))
            (read ip re (store trees u) ending lines t >>= λ (s, e). ok (f s, e))
          ≡ (read ip re (store_value u) ending lines w >>= λ (s, e). ok (g s, e))
    both f g t w same e =
        bind_seen h f g (read ip re (store trees u) ending lines t) same
        ∙ ap (λ o. o >>= λ (s, x). ok (g s, x))
            (mapped-read h (store trees u) (store_value u) (seen-store trees u) ip re ending lines t
              ∙ ap (λ x. read ip re (store_value u) ending lines x) e)

    choice :
        (b : Bool)
        → mapped (seen (seen_stores h)) (
            if b
            then load_default trees.new_tree (store trees u) ip re reset ending lines m
            else load_engine trees.new_tree (store trees u) ip re engine reset ending lines m)
          ≡ (if b
              then load_default no_values (store_value u) ip re reset ending lines (seen_stores h m)
              else load_engine no_values
                  (store_value u)
                  ip
                  re
                  engine
                  reset
                  ending
                  lines
                  (seen_stores h m))
    choice true =
        both (λ t. record m { default_mibs = t })
          (λ t. record (seen_stores h m) { default_mibs = t }) _ _ (λ s. refl)
          (default_start h reset trees.new_tree m.default_mibs
            ∙ ap (λ n. if reset then n else h m.default_mibs) new_seen)
    choice false =
        both (λ t. put_engine engine t m) (λ t. put_engine engine t (seen_stores h m)) _ _
          (λ s. put_seen h engine s m)
          (start_seen h reset trees.new_tree (m.by_engine engine)
            ∙ ap (λ n. if reset then n else or_new n (seen_option h (m.by_engine engine))) new_seen)
