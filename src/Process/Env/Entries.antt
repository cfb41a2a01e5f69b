-- ===== src/Process/Env/Entries.antt =====
-- The values of a key: those of its entries; and how the operations on entries change it.
use routeup.Base.{
  Text, if◌then◌else◌, text_eq, ◌≡◌, none, some, List, [], ◌∷◌, ◌++◌, arith, Option-cases,
  text_eq_iff, refl, inl, inr,
}
use routeup.Strings.{cut_prefix, contains_byte, has_prefix}
use routeup.Strings.Laws.{Lacks, cut_prefix-eq_some}
use routeup.Process.Env.{key_prefix, upsert, without_env, path_key, prepend_path}

-- The values of the entries of a key, in their order.
unfoldable pub values : Text → List Text → List Text
values key [] = []
values key (entry ∷ env) = elim (cut_prefix (key_prefix key) entry) [
  | none ↦ values key env
  | some v ↦ v ∷ values key env
]

-- The values with the first replaced, or with one where there was none.
abbrev pub set_first : Text → List Text → List Text
set_first v [] = v ∷ []
set_first v (w ∷ ws) = v ∷ ws

-- An entry of one key is an entry of another only if the keys are equal.
pub entry_key :
    (j k v : Text)
    → Lacks b'=' j
    → Lacks b'=' k
    → cut_prefix (key_prefix j) (key_prefix k ++ v) ≡ (if text_eq k j then some v else none)
unfolding cut_prefix contains_byte text_eq
entry_key [] [] v h l = ground arith
entry_key [] (c ∷ k) v h l = ground (arith, l)
entry_key (b ∷ j) [] v h l = ground (arith, h)
entry_key (b ∷ j) (c ∷ k) v h l = ground (arith, h, l, entry_key j k v)

pub values-upsert :
    (j k v : Text) (env : List Text)
    → Lacks b'=' j
    → Lacks b'=' k
    → values j (upsert env k v) ≡ (if text_eq k j then set_first v (values j env) else values j env)
unfolding values upsert has_prefix
values-upsert j k v [] h l = ground (arith, entry_key j k v h l)
values-upsert j k v (e ∷ env) h l = elim (Option-cases (cut_prefix (key_prefix k) e)) [
  | inl q ↦ ground (arith, q, values-upsert j k v env h l, text_eq_iff k j)
  | inr (w, q) ↦
      ground (
        arith,
        q,
        entry_key j k v h l,
        entry_key j k w h l,
        cut_prefix-eq_some (key_prefix k) e w q,
      )
]

pub values-without_env :
    (j k : Text) (env : List Text)
    → Lacks b'=' j
    → Lacks b'=' k
    → values j (without_env env k) ≡ (if text_eq k j then [] else values j env)
unfolding values without_env has_prefix
values-without_env j k [] h l = ground arith
values-without_env j k (e ∷ env) h l = elim (Option-cases (cut_prefix (key_prefix k) e)) [
  | inl q ↦ ground (arith, q, values-without_env j k env h l, text_eq_iff k j)
  | inr (w, q) ↦ ground (
    arith,
    q,
    values-without_env j k env h l,
    entry_key j k w h l,
    cut_prefix-eq_some (key_prefix k) e w q,
  )
]

path_key-Lacks : Lacks b'=' path_key
unfolding contains_byte
path_key-Lacks = refl

-- What prependPath makes of the values of the path: it is put before the first, if there is one.
abbrev pub prepended : Text → List Text → List Text
prepended dir [] = dir ∷ []
prepended dir ([] ∷ ws) = dir ∷ ws
prepended dir ((c ∷ path) ∷ ws) = (dir ++ b':' ∷ c ∷ path) ∷ ws

values-entry :
    (j k v : Text) (env : List Text)
    → Lacks b'=' j
    → Lacks b'=' k
    → values j ((key_prefix k ++ v) ∷ env)
      ≡ (if text_eq k j then v ∷ values j env else values j env)
unfolding values
values-entry j k v env h l = ground (arith, entry_key j k v h l)

-- The values where an entry of a key is replaced by another one of the key.
replaced_entry :
    (j k e old new : Text) (env : List Text)
    → Lacks b'=' j
    → Lacks b'=' k
    → e ≡ key_prefix k ++ old
    → values j ((key_prefix k ++ new) ∷ env)
      ≡ (if text_eq k j then new ∷ values k env else values j (e ∷ env))
replaced_entry j k e old new env h l same =
    ground
      (arith, text_eq_iff k j, values-entry j k new env h l, values-entry j k old env h l, same)

pub values-prepend_path :
    (j dir : Text) (env : List Text)
    → Lacks b'=' j
    → values j (prepend_path env dir)
      ≡ (if text_eq path_key j then prepended dir (values path_key env) else values j env)
unfolding values prepend_path cut_prefix text_eq
values-prepend_path j dir [] h = ground (arith, entry_key j path_key dir h path_key-Lacks)
values-prepend_path j dir (e ∷ env) h = elim (Option-cases (cut_prefix (key_prefix path_key) e)) [
  | inl q ↦ ground (arith, q, values-prepend_path j dir env h, text_eq_iff path_key j)
  | inr ([], q) ↦ rw q (
      replaced_entry j path_key e [] dir env h path_key-Lacks
        (cut_prefix-eq_some (key_prefix path_key) e [] q))
  | inr (c ∷ w, q) ↦ rw q (
      replaced_entry j path_key e (c ∷ w) (dir ++ b':' ∷ c ∷ w) env h path_key-Lacks
        (cut_prefix-eq_some (key_prefix path_key) e (c ∷ w) q))
]
