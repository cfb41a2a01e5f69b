-- ===== src/Server/Reserved.antt =====
-- internal/server/reserved.go: the labels that no client gets directly under the public domain. The
-- set is the list of its members.
use routeup.Base.{Text, if◌then◌else◌, any, codes, text_eq, Bool, List, [], ◌∷◌}
use routeup.Strings.{Unicode, to_lower, trim_space}

-- func DefaultReservedLabels
abbrev pub default_reserved_labels : List Text
default_reserved_labels =
    codes "api"
    ∷ codes "admin"
    ∷ codes "app"
    ∷ codes "dashboard"
    ∷ codes "dev"
    ∷ codes "docs"
    ∷ codes "get"
    ∷ codes "status"
    ∷ codes "www"
    ∷ codes "try"
    ∷ []

-- type ReservedSet
abbrev pub ReservedSet : Type 0
ReservedSet = List Text

-- The second loop of NewReservedSet.
unfoldable pub add_extras : Unicode → List Text → ReservedSet → ReservedSet
add_extras u [] s = s
add_extras u (raw ∷ rest) s =
    let l = to_lower u (trim_space u raw) in add_extras u rest (if text_eq l [] then s else l ∷ s)

-- func NewReservedSet
unfoldable pub new_reserved_set : Unicode → List Text → ReservedSet
unfolding add_extras
new_reserved_set u extra = add_extras u extra default_reserved_labels

-- func (s ReservedSet) Has
unfoldable pub has : Unicode → ReservedSet → Text → Bool
has u s label = any (text_eq (to_lower u (trim_space u label))) s
