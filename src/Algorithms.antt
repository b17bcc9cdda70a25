-- ===== src/Algorithms.antt =====
-- `generateAlgorithmList` of lib/utils.js: the lists of algorithms of a connection, from what its user asks for, the
-- default and what is supported. Lists are values, so that the copy that keeps `defaultList` as it is needs no step.
use ssh.Common.{
  ℕ, Bool, true, false, ◌||◌, Option, none, some, List, [], ◌∷◌, ◌++◌, map, same, codes,
  if◌then◌else◌, Bytes,
}
pub mod Entries
pub mod Editing
pub mod Sound
mod Tests

-- What a list may hold: a text, or `undefined`.
abbrev pub Entry : Type 0
Entry = Option Bytes

abbrev pub same_entry : Entry → Entry → Bool
same_entry none none = true
same_entry (some a) (some b) = same a b
same_entry _ _ = false

-- `list.indexOf(entry) !== -1`.
abbrev pub found : List Entry → Entry → Bool
found [] e = false
found (x ∷ xs) e = same_entry x e || found xs e

-- A regular expression without state is its test on a text; `test(undefined)` tests the text `undefined`.
abbrev pub test : (Bytes → Bool) → Entry → Bool
test re none = re (codes "undefined")
test re (some a) = re a

pub data Pattern : Type 0 where
  text : Bytes → Pattern
  regexp : (Bytes → Bool) → Pattern
  other : Pattern

pub data Key : Type 0 where
  append : Key
  prepend : Key
  remove : Key
  unknown : Key

pub data Value : Type 0 where
  one : Pattern → Value
  many : List Pattern → Value

pub data AlgoList : Type 0 where
  exact : List Bytes → AlgoList
  edits : List (Key × Value) → AlgoList
  absent : AlgoList

abbrev pub reverse : List Entry → List Entry
reverse [] = []
reverse (x ∷ xs) = reverse xs ++ x ∷ []

abbrev pub reverse_patterns : List Pattern → List Pattern
reverse_patterns [] = []
reverse_patterns (x ∷ xs) = reverse_patterns xs ++ x ∷ []

abbrev pub values : Value → List Pattern
values (one p) = p ∷ []
values (many ps) = ps

abbrev pub push_entry : Entry → List Entry → List Entry
push_entry e list = list ++ e ∷ []

abbrev pub unshift_entry : Entry → List Entry → List Entry
unshift_entry e list = e ∷ list

abbrev pub put_new :
    (Entry → List Entry → List Entry) → (Bytes → Bool) → Entry → List Entry → List Entry
put_new put re e list = if test re e then if found list e then list else put e list else list

-- The loop over the supported algorithms, in the order in which it visits them.
unfoldable pub put_matching :
    (Entry → List Entry → List Entry) → (Bytes → Bool) → List Entry → List Entry → List Entry
put_matching put re [] list = list
put_matching put re (e ∷ es) list = put_matching put re es (put_new put re e list)

abbrev pub is_empty : Bytes → Bool
is_empty [] = true
is_empty (x ∷ xs) = false

-- `none` is an error thrown.
unfoldable pub put_one :
    (Entry → List Entry → List Entry)
    → List Entry
    → List Entry
    → Pattern
    → List Entry
    → Option (List Entry)
put_one put visited supported (text a) list =
    if is_empty a || found list (some a)
    then some list
    else if found supported (some a)
    then some (put (some a) list)
    else none
put_one put visited supported (regexp re) list = some (put_matching put re visited list)
put_one put visited supported other list = some list

abbrev pub then_list :
    Option (List Entry) → (List Entry → Option (List Entry)) → Option (List Entry)
then_list none f = none
then_list (some list) f = f list

unfoldable pub put_all :
    (Entry → List Entry → List Entry)
    → List Entry
    → List Entry
    → List Pattern
    → List Entry
    → Option (List Entry)
put_all put visited supported [] list = some list
put_all put visited supported (p ∷ ps) list =
    then_list (put_one put visited supported p list) (put_all put visited supported ps)

abbrev pub remove_first : Entry → List Entry → List Entry
remove_first e [] = []
remove_first e (x ∷ xs) = if same_entry x e then xs else x ∷ remove_first e xs

abbrev pub remove_matching : (Bytes → Bool) → List Entry → List Entry
remove_matching re [] = []
remove_matching re (x ∷ xs) =
    let rest = remove_matching re xs in if test re x then rest else x ∷ rest

unfoldable pub remove_one : Pattern → List Entry → List Entry
remove_one (text a) list = if is_empty a then list else remove_first (some a) list
remove_one (regexp re) list = remove_matching re list
remove_one other list = list

unfoldable pub remove_all : List Pattern → List Entry → List Entry
remove_all [] list = list
remove_all (p ∷ ps) list = remove_all ps (remove_one p list)

-- The loops of `prepend` begin one behind the end, where the value and the algorithm are `undefined`.
unfoldable pub edit : List Entry → Key → Value → List Entry → Option (List Entry)
edit supported append v list = put_all push_entry supported supported (values v) list
edit supported prepend v list =
    put_all unshift_entry (none ∷ reverse supported) supported (other ∷ reverse_patterns (values v))
      list
edit supported remove v list = some (remove_all (values v) list)
edit supported unknown v list = some list

unfoldable pub edit_all : List Entry → List (Key × Value) → List Entry → Option (List Entry)
edit_all supported [] list = some list
edit_all supported ((k, v) ∷ kvs) list =
    then_list (edit supported k v list) (edit_all supported kvs)

abbrev pub all_found : List Entry → List Entry → Bool
all_found supported [] = true
all_found supported (e ∷ es) = if found supported e then all_found supported es else false

unfoldable pub generate_algorithm_list : AlgoList → List Bytes → List Bytes → Option (List Entry)
generate_algorithm_list (exact []) defaults supported = some (map some defaults)
generate_algorithm_list (exact (a ∷ as')) defaults supported =
    if all_found (map some supported) (map some (a ∷ as')) then some (map some (a ∷ as')) else none
generate_algorithm_list (edits kvs) defaults supported =
    edit_all (map some supported) kvs (map some defaults)
generate_algorithm_list absent defaults supported = some (map some defaults)
