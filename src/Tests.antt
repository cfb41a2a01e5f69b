-- ===== src/Tests.antt =====
-- Concrete inputs: the theorems of the library applied to them.
mod Names
mod Requests
mod Holds
mod Claims
mod Registry
mod Sessions
mod Commands
mod Exposures
mod Network
mod Calls
mod Proxying
mod Configs
use routeup.Base.{text_eq, true, false}
use routeup.Strings.{Unicode, equal_fold, has_control}

-- Tables for the texts that are not all ASCII; the inputs below are.
abbrev pub plain : Unicode
plain = record {
  lower = λ s. s;
  trim = λ s. s;
  trim_right = λ s. s;
  valid = λ s. true;
  has_control = λ s. false;
  equal_fold = λ s t. text_eq s t;
}
