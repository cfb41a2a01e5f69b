-- ===== src/Logs/Entry.antt =====
-- internal/logs/entry.go: one completed request. Times count nanoseconds from Go's zero time.
use routeup.Base.{Text, ℤ, pos, codes, text_eq, ℕ, Bool, false, ◌||◌, Option, none, []}
use routeup.Route.Target.{Target}
use routeup.Logs.Capture.{Capture}

-- type Entry
pub record Entry : Type 0 where
  pub id : Text
  pub started_at : ℕ
  pub duration : ℕ
  pub source : Text
  pub route_name : Text
  pub host : Text
  pub method : Text
  pub request_path : Text
  pub target : Target
  pub status : ℤ
  pub captured : Bool
  pub capture : Option Capture

abbrev pub source_local : Text
source_local = codes "local"

abbrev pub source_public : Text
source_public = codes "public"

-- func (source Source) valid
unfoldable pub valid_source : Text → Bool
valid_source s = text_eq s source_local || text_eq s source_public

-- Entry{}
abbrev pub zero_entry : Entry
zero_entry = record {
  id = [];
  started_at = 0;
  duration = 0;
  source = [];
  route_name = [];
  host = [];
  method = [];
  request_path = [];
  target = record { path = []; port = pos 0 };
  status = pos 0;
  captured = false;
  capture = none;
}
