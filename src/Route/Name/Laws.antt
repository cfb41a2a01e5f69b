-- ===== src/Route/Name/Laws.antt =====
-- What Parse accepts, and the round trips through a name's text and its local host.
use routeup.Base.{
  Text, length, All, ok, ℕ, ◌≤◌, ◌≡◌, refl, ◌≢◌, ◌⊎◌, false, List, [], ◌∷◌, arith, All-append,
  text_eq_iff, sym, ap, ◌∙◌, some,
}
use routeup.Strings.{Unicode, to_lower, contains_byte, split, join, cut_suffix}
use routeup.Strings.Laws.{Lacks, split-ne-nil, join-split, split-join, cut_suffix-append}
use routeup.Strings.Lower.{IsLow, to_lower_of_IsLow}
use routeup.Route.Name.{
  Name, local_suffix, public_suffix, first_byte, last_byte, check_chars, validate_label,
  validate_labels, ends_in, parse, to_string, local_host, route_name_from_host,
}

abbrev pub IsLabelChar : ℕ → Type 0
IsLabelChar c = ((b'a' ≤ c) × (c ≤ b'z')) ⊎ ((b'0' ≤ c) × (c ≤ b'9')) ⊎ (c ≡ b'-')

-- A DNS label: 1 to 63 of the allowed bytes, with no hyphen at either end.
pub record IsLabel (l : Text) : Type 0 where
  pub nonempty : 1 ≤ length l
  pub short : length l ≤ 63
  pub starts : first_byte l ≢ b'-'
  pub ends : last_byte l ≢ b'-'
  pub chars : All IsLabelChar l

-- What a parsed name satisfies.
pub record IsValid (n : Name) : Type 0 where
  pub some_label : n.labels ≢ []
  pub all_labels : All IsLabel n.labels
  pub bounded : length (to_string n) ≤ 253
  pub not_local : ends_in local_suffix (to_string n) ≡ false
  pub not_public : ends_in public_suffix (to_string n) ≡ false

check_chars_sound : (s : Text) → check_chars s ≡ ok tt → All IsLabelChar s
unfolding check_chars
check_chars_sound [] h = tt
check_chars_sound (c ∷ s) h = ground (arith, check_chars_sound s)

check_chars_complete : (s : Text) → All IsLabelChar s → check_chars s ≡ ok tt
unfolding check_chars
check_chars_complete [] h = refl
check_chars_complete (c ∷ s) h = ground (arith, check_chars_complete s h.1)

-- validateLabel accepts the DNS labels and nothing else.
pub validate_label_sound : (l : Text) → validate_label l ≡ ok tt → IsLabel l
unfolding validate_label
validate_label_sound l h = ground (arith, check_chars_sound l)

pub validate_label_complete : (l : Text) → IsLabel l → validate_label l ≡ ok tt
unfolding validate_label
validate_label_complete l v = ground (arith, check_chars_complete l v.chars)

validate_labels_sound : (ls : List Text) → validate_labels ls ≡ ok tt → All IsLabel ls
unfolding validate_labels
validate_labels_sound [] h = tt
validate_labels_sound (l ∷ ls) h = ground (arith, validate_label_sound l, validate_labels_sound ls)

validate_labels_complete : (ls : List Text) → All IsLabel ls → validate_labels ls ≡ ok tt
unfolding validate_labels
validate_labels_complete [] h = refl
validate_labels_complete (l ∷ ls) (v, vs) =
    rw (validate_label_complete l v) (validate_labels_complete ls vs)

parse-checks :
    (u : Unicode) (raw : Text) (n : Name)
    → parse u raw ≡ ok n
    → (length (to_lower u raw) ≤ 253)
      × (ends_in local_suffix (to_lower u raw) ≡ false)
      × (ends_in public_suffix (to_lower u raw) ≡ false)
      × All IsLabel (split b'.' (to_lower u raw))
      × (n.labels ≡ split b'.' (to_lower u raw))
unfolding parse
parse-checks u raw n h = ground (arith, validate_labels_sound (split b'.' (to_lower u raw)))

IsLabelChar-IsLow : (l : Text) → All IsLabelChar l → All IsLow l
IsLabelChar-IsLow [] h = tt
IsLabelChar-IsLow (c ∷ l) h = ((ground arith, ground arith), IsLabelChar-IsLow l h.1)

IsLabelChar-Lacks_dot : (l : Text) → All IsLabelChar l → Lacks b'.' l
unfolding contains_byte
IsLabelChar-Lacks_dot [] h = refl
IsLabelChar-Lacks_dot (c ∷ l) h = ground (arith, IsLabelChar-Lacks_dot l h.1)

join-IsLow : (ls : List Text) → All IsLabel ls → All IsLow (join b'.' ls)
unfolding join
join-IsLow [] h = tt
join-IsLow (l ∷ []) h = IsLabelChar-IsLow l h.0.chars
join-IsLow (l ∷ m ∷ ms) h =
    All-append IsLow l (b'.' ∷ join b'.' (m ∷ ms)) (IsLabelChar-IsLow l h.0.chars)
      ((refl, refl), join-IsLow (m ∷ ms) h.1)

labels-Lacks_dot : (ls : List Text) → All IsLabel ls → All (Lacks b'.') ls
labels-Lacks_dot [] h = tt
labels-Lacks_dot (l ∷ ls) h = (IsLabelChar-Lacks_dot l h.0.chars, labels-Lacks_dot ls h.1)

split-labels : (ls : List Text) → ls ≢ [] → All IsLabel ls → split b'.' (join b'.' ls) ≡ ls
split-labels [] n h = absurd (n refl)
split-labels (l ∷ ls) n h = split-join b'.' l ls (labels-Lacks_dot (l ∷ ls) h)

-- The text of a parsed name is the lowered input.
pub to_string-parse :
    (u : Unicode) (raw : Text) (n : Name) → parse u raw ≡ ok n → to_string n ≡ to_lower u raw
unfolding to_string
to_string-parse u raw n h =
    let (_, _, _, _, same) = parse-checks u raw n h in
    ap (join b'.') same ∙ join-split b'.' (to_lower u raw)

-- Whatever Parse accepts is a nonempty list of DNS labels, within 253 bytes, off both suffixes.
pub parse-IsValid : (u : Unicode) (raw : Text) (n : Name) → parse u raw ≡ ok n → IsValid n
parse-IsValid u raw n h =
    let (short, local, public, labels, same) = parse-checks u raw n h in
    let text = to_string-parse u raw n h in
    record {
      some_label = λ e. split-ne-nil b'.' (to_lower u raw) (sym same ∙ e);
      all_labels = rw same labels;
      bounded = rw text short;
      not_local = rw text local;
      not_public = rw text public;
    }

to_string-ne-nil : (n : Name) → IsValid n → to_string n ≢ []
unfolding to_string join
to_string-ne-nil n v e = go n.labels v.some_label v.all_labels e
  where
    go : (ls : List Text) → ls ≢ [] → All IsLabel ls → join b'.' ls ≢ []
    go [] k h e = k refl
    go (l ∷ []) k h e = omega (arith, h.0.nonempty, ap length e)
    go ([] ∷ m ∷ ms) k h e = omega (arith, h.0.nonempty)
    go ((c ∷ l) ∷ m ∷ ms) k h e = cc

lower-to_string : (u : Unicode) (n : Name) → IsValid n → to_lower u (to_string n) ≡ to_string n
unfolding to_string
lower-to_string u n v = to_lower_of_IsLow u _ (join-IsLow n.labels v.all_labels)

split-to_string : (n : Name) → IsValid n → split b'.' (to_string n) ≡ n.labels
unfolding to_string
split-to_string n v = split-labels n.labels v.some_label v.all_labels

-- A valid name is parsed back from its own text, whatever Unicode's tables say.
pub parse-to_string : (u : Unicode) (n : Name) → IsValid n → parse u (to_string n) ≡ ok n
unfolding parse
parse-to_string u n v = ground (
  arith,
  to_string-ne-nil n v,
  text_eq_iff (to_string n) [],
  lower-to_string u n v,
  split-to_string n v,
  validate_labels_complete n.labels v.all_labels,
  v.bounded,
  v.not_local,
  v.not_public,
)

suffix-IsLow : All IsLow (b'.' ∷ local_suffix)
suffix-IsLow = ground arith

lower-local_host : (u : Unicode) (n : Name) → IsValid n → to_lower u (local_host n) ≡ local_host n
unfolding local_host to_string
lower-local_host u n v = to_lower_of_IsLow u _ (
    All-append IsLow (join b'.' n.labels) (b'.' ∷ local_suffix) (join-IsLow n.labels v.all_labels)
      suffix-IsLow)

cut-local_host : (n : Name) → cut_suffix (b'.' ∷ local_suffix) (local_host n) ≡ some (to_string n)
unfolding local_host
cut-local_host n = cut_suffix-append (b'.' ∷ local_suffix) (to_string n)

-- The route name is read back from the local host that the name stands for.
pub route_name_from_host-local_host :
    (u : Unicode) (n : Name)
    → IsValid n
    → route_name_from_host u (local_host n) ≡ some (to_string n)
unfolding route_name_from_host
route_name_from_host-local_host u n v = ground (
  arith,
  lower-local_host u n v,
  cut-local_host n,
  to_string-ne-nil n v,
  text_eq_iff (to_string n) [],
)
