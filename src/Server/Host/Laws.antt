-- ===== src/Server/Host/Laws.antt =====
-- What the checks of DNS names accept, and the hosts derived from accepted parts.
use routeup.Server.Host.{
  validate_label, derive_token_host, nonempty, immediate_child_label, check_label, validate_labels,
  validate_dns_name,
}
use routeup.Strings.Laws.{Lacks, cut_suffix-append, join-split, split_of_Lacks}
use routeup.Base.{
  Text, length, All, All-append, All-map, ok, text_eq_iff, ℕ, ◌≤◌, ◌≡◌, refl, ap, subst, ◌∙◌, ◌≢◌,
  ◌⊎◌, inl, inr, some, List, [], ◌∷◌, ◌++◌, arith,
}
use routeup.Strings.{Unicode, to_lower, is_space, trim_space, contains_byte, split, join}
use routeup.Strings.Lower.{IsLow, to_lower_of_IsLow}
use routeup.Strings.Trim.{IsSolid, trim_space_of_IsSolid}
use routeup.Route.Name.Laws.{IsLabel, IsLabelChar}

-- A dotted sequence of DNS labels within 253 bytes.
pub record IsDnsName (s : Text) : Type 0 where
  pub some_byte : s ≢ []
  pub short : length s ≤ 253
  pub labels : All IsLabel (split b'.' s)

check_label_sound : (s : Text) → check_label s ≡ ok tt → All IsLabelChar s
unfolding check_label
check_label_sound [] h = tt
check_label_sound (c ∷ s) h = ground (arith, check_label_sound s)

check_label_complete : (s : Text) → All IsLabelChar s → check_label s ≡ ok tt
unfolding check_label
check_label_complete [] h = refl
check_label_complete (c ∷ s) h = ground (arith, check_label_complete s h.1)

pub server-IsLabel_sound : (l : Text) → validate_label l ≡ ok tt → IsLabel l
unfolding validate_label
server-IsLabel_sound l h = ground (arith, check_label_sound l)

pub server-IsLabel_complete : (l : Text) → IsLabel l → validate_label l ≡ ok tt
unfolding validate_label
server-IsLabel_complete l v = ground (arith, check_label_complete l v.chars)

labels_sound : (ls : List Text) → validate_labels ls ≡ ok tt → All IsLabel ls
unfolding validate_labels
labels_sound [] h = tt
labels_sound (l ∷ ls) h = ground (arith, server-IsLabel_sound l, labels_sound ls)

labels_complete : (ls : List Text) → All IsLabel ls → validate_labels ls ≡ ok tt
unfolding validate_labels
labels_complete [] h = refl
labels_complete (l ∷ ls) (v, vs) = rw (server-IsLabel_complete l v) (labels_complete ls vs)

pub validate_dns_name_sound : (s : Text) → validate_dns_name s ≡ ok tt → IsDnsName s
unfolding validate_dns_name
validate_dns_name_sound s h = ground (arith, text_eq_iff s [], labels_sound (split b'.' s))

pub validate_dns_name_complete : (s : Text) → IsDnsName s → validate_dns_name s ≡ ok tt
unfolding validate_dns_name
validate_dns_name_complete s v =
    ground (arith, text_eq_iff s [], v.some_byte, v.short, labels_complete (split b'.' s) v.labels)

-- The bytes of a DNS name.
abbrev pub IsHostChar : ℕ → Type 0
IsHostChar c = IsLabelChar c ⊎ (c ≡ b'.')

pub host_chars-IsLow : (s : Text) → All IsHostChar s → All IsLow s
host_chars-IsLow [] h = tt
host_chars-IsLow (c ∷ s) h = ((ground arith, ground arith), host_chars-IsLow s h.1)

pub host_chars-IsSolid : (s : Text) → All IsHostChar s → All IsSolid s
unfolding is_space
host_chars-IsSolid [] h = tt
host_chars-IsSolid (c ∷ s) h = ((ground arith, ground arith), host_chars-IsSolid s h.1)

label-IsHostChar : (l : Text) → IsLabel l → All IsHostChar l
label-IsHostChar l v = All-map IsLabelChar IsHostChar l (λ c h. inl h) v.chars

join-IsHostChar : (ls : List Text) → All IsLabel ls → All IsHostChar (join b'.' ls)
unfolding join
join-IsHostChar [] h = tt
join-IsHostChar (l ∷ []) h = label-IsHostChar l h.0
join-IsHostChar (l ∷ m ∷ ms) h =
    All-append IsHostChar l (b'.' ∷ join b'.' (m ∷ ms)) (label-IsHostChar l h.0)
      (inr refl, join-IsHostChar (m ∷ ms) h.1)

pub dns-IsHostChar : (s : Text) → IsDnsName s → All IsHostChar s
dns-IsHostChar s v =
    subst (All IsHostChar) (join-split b'.' s) (join-IsHostChar (split b'.' s) v.labels)

-- Lowering and trimming a text of such bytes changes nothing.
pub clean_of_host_chars :
    (u : Unicode) (s : Text) → All IsHostChar s → to_lower u (trim_space u s) ≡ s
clean_of_host_chars u s h =
    ap (to_lower u) (trim_space_of_IsSolid u s (host_chars-IsSolid s h))
    ∙ to_lower_of_IsLow u s (host_chars-IsLow s h)

pub label-Lacks_dot : (l : Text) → IsLabel l → Lacks b'.' l
unfolding contains_byte
label-Lacks_dot l v = go l v.chars
  where
    go : (s : Text) → All IsLabelChar s → Lacks b'.' s
    go [] h = refl
    go (c ∷ s) h = ground (arith, go s h.1)

pub label-ne-nil : (l : Text) → IsLabel l → l ≢ []
label-ne-nil l v e = omega (arith, v.nonempty, ap length e)

-- A label under a name: the host that DeriveTokenHost builds of them.
pub derive_token_host-eq :
    (u : Unicode) (l base : Text)
    → IsLabel l
    → IsDnsName base
    → derive_token_host u l base ≡ l ++ (b'.' ∷ base)
unfolding derive_token_host
derive_token_host-eq u l base v d =
    rw
      (
        to_lower_of_IsLow u l (host_chars-IsLow l (label-IsHostChar l v)),
        to_lower_of_IsLow u base (host_chars-IsLow base (dns-IsHostChar base d)),
      )
      refl

pub host-IsHostChar :
    (l base : Text) → IsLabel l → IsDnsName base → All IsHostChar (l ++ (b'.' ∷ base))
host-IsHostChar l base v d =
    All-append IsHostChar l (b'.' ∷ base) (label-IsHostChar l v) (inr refl, dns-IsHostChar base d)

nonempty_of_ne : (s : Text) → s ≢ [] → nonempty s ≡ some s
nonempty_of_ne [] n = absurd (n refl)
nonempty_of_ne (c ∷ s) n = refl

-- A DNS label is read back from the host that DeriveTokenHost builds of it under a DNS name.
pub immediate_child_label-derive :
    (u : Unicode) (l base : Text)
    → IsLabel l
    → IsDnsName base
    → immediate_child_label u (derive_token_host u l base) base ≡ some l
unfolding immediate_child_label
immediate_child_label-derive u l base v d = ground (
  arith,
  derive_token_host-eq u l base v d,
  clean_of_host_chars u (l ++ (b'.' ∷ base)) (host-IsHostChar l base v d),
  clean_of_host_chars u base (dns-IsHostChar base d),
  cut_suffix-append (b'.' ∷ base) l,
  text_eq_iff l [],
  label-ne-nil l v,
  split_of_Lacks b'.' l (label-Lacks_dot l v),
  nonempty_of_ne l (label-ne-nil l v),
)
