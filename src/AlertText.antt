-- ===== src/AlertText.antt =====
-- internal/alerttext/catalog.go: the recognised alert kinds and the facts that present them. A text is
-- its list of runes, so that the bound on its length can be stated.
pub mod Bounds
use cairnops.Common.{
  ℕ, zero, suc, ◌+◌, ◌-◌, Bool, true, false, not, ◌||◌, ◌&&◌, ltb, leb, ◌==◌, if◌then◌else◌, Option,
  none, some, List, [], ◌∷◌, ◌++◌, length,
}
use cairnops.Common.Int.{ℤ, pos, negsuc, ltb_ℤ}
use cairnops.Common.Text.{Text, fields, unwords, take_runes}

-- `none_known` is every string that the catalogue does not hold, the empty one included.
pub data Kind : Type 0 where
  backup_failure backup_freshness unavailable disk_latency disk_space disk_inodes : Kind
  cpu_usage system_load memory_usage memory_available swap_space : Kind
  package_count_changed certificate_expiry certificate_invalid security_updates : Kind
  reboot_required software_update software_security_update software_major_update : Kind
  none_known : Kind

pub Kind-discrete : Discrete Kind
Kind-discrete = hlevel

-- `kind == k` on the strings, for kinds of the catalogue.
unfoldable pub same_kind : Kind → Kind → Bool
unfolding Kind-discrete
same_kind a b = elim (Kind-discrete a b) [ yes e ↦ true | no e ↦ false ]

pub record Fact : Type 0 where
  pub kind : Kind
  pub resource : Text
  pub count : Option ℤ
  pub current_version : Text
  pub available_version : Text

abbrev pub no_fact : Fact
no_fact = record {
  kind = none_known;
  resource = [];
  count = none;
  current_version = [];
  available_version = [];
}

-- A cut text ends in an ellipsis, U+2026.
unfoldable pub bounded : Text → Text
bounded value =
    let runes = unwords (fields value) in
    if ltb 160 (length runes) then take_runes 159 runes ++ (8230 ∷ []) else runes

unfoldable pub versioned : Kind → Bool
versioned k =
    same_kind k software_update
    || same_kind k software_security_update
    || same_kind k software_major_update

-- The count of a fact that keeps its count.
abbrev pub kept_count : Kind → Option ℤ → Option ℤ
kept_count k none = none
kept_count k (some n) =
    if not (same_kind k security_updates) || ltb_ℤ n (pos 0) then none else some n

unfoldable pub normalize : Fact → Fact
unfolding versioned
normalize f = if same_kind f.kind none_known then no_fact else record f {
  resource = bounded f.resource;
  count = kept_count f.kind f.count;
  current_version = if versioned f.kind then bounded f.current_version else [];
  available_version = if versioned f.kind then bounded f.available_version else [];
}

-- `impairing`: the conditions that alter how a resource works.
unfoldable pub impairs_functioning : Kind → Bool
impairs_functioning backup_failure = true
impairs_functioning backup_freshness = true
impairs_functioning disk_latency = true
impairs_functioning disk_space = true
impairs_functioning disk_inodes = true
impairs_functioning cpu_usage = true
impairs_functioning system_load = true
impairs_functioning memory_usage = true
impairs_functioning memory_available = true
impairs_functioning swap_space = true
impairs_functioning certificate_invalid = true
impairs_functioning _ = false

abbrev pub all_of_kind : Kind → List Fact → Bool
all_of_kind k [] = true
all_of_kind k (f ∷ fs) = same_kind (normalize f).kind k && all_of_kind k fs

unfoldable pub common : List Fact → Fact
common [] = no_fact
common (f ∷ fs) =
    let kind = (normalize f).kind in
    if same_kind kind none_known
    then no_fact
    else if all_of_kind kind fs
    then record no_fact { kind = kind }
    else no_fact
