-- ===== src/Egress/Match.antt =====
-- keep_spec/egress.py: what an entry `host[:port]` covers, and the first entry of the allowlist that
-- covers a target. (`_egress_entry_allows` of agent_runtime/wiring.py is the same code.)
use agent_keep.Base.{
  ℕ, Bool, true, false, not, ◌&&◌, Option, none, some, List, [], ◌∷◌, leb, ◌==◌, length, is_empty,
  if◌then◌else◌,
}
use agent_keep.Egress.Text.{Text, same_text, lower, ends_with, all_digits, number_from}

-- `s.rpartition(":")`, `none` where no colon stands in `s`.
unfoldable pub rpartition : Text → Option (Text × Text)
rpartition [] = none
rpartition (c ∷ s) = elim (rpartition s) [
  | some (before, after) ↦ some (c ∷ before, after)
  | none ↦ if c == b':' then some ([], s) else none
]

-- `$` matches before a line feed that ends the text, and `int` passes over it.
unfoldable pub chomp : Text → Text
chomp [] = []
chomp (c ∷ []) = if c == 10 then [] else c ∷ []
chomp (c ∷ d ∷ s) = c ∷ chomp (d ∷ s)

-- `[0-9]{1,5}`
abbrev pub is_port : Text → Bool
is_port s = all_digits s && (not (is_empty s) && leb (length s) 5)

-- The entry's host, and its port if it ends in one.
abbrev pub with_port : Text → Option (Text × Text) → Text × Option ℕ
with_port entry none = (entry, none)
with_port entry (some (before, after)) =
    if is_port (chomp after) then (before, some (number_from 0 (chomp after))) else (entry, none)

unfoldable pub split_entry : Text → Text × Option ℕ
unfolding rpartition chomp all_digits number_from
split_entry entry = with_port entry (rpartition entry)

abbrev pub port_covers : Option ℕ → ℕ → Bool
port_covers none port = true
port_covers (some p) port = p == port

-- `*.` in front: the subdomains of what follows.
abbrev pub wildcard_suffix : Text → Option Text
wildcard_suffix [] = none
wildcard_suffix (c ∷ []) = none
wildcard_suffix (c ∷ d ∷ s) = if c == b'*' && d == b'.' then some (d ∷ s) else none

abbrev pub host_test : Option Text → Text → Text → Bool
host_test none entry_host host = same_text host entry_host
host_test (some suffix) entry_host host = ends_with host suffix

unfoldable pub host_covers : Text → Text → Bool
unfolding same_text lower ends_with
host_covers entry_host host =
    host_test (wildcard_suffix (lower entry_host)) (lower entry_host) (lower host)

unfoldable pub egress_entry_allows : Text → Text → ℕ → Bool
egress_entry_allows entry host port =
    let (entry_host, entry_port) = split_entry entry in
    if not (port_covers entry_port port) then false else host_covers entry_host host

unfoldable pub match_allowlist : List Text → Text → ℕ → Option Text
match_allowlist [] host port = none
match_allowlist (entry ∷ entries) host port =
    let rest = match_allowlist entries host port in
    if egress_entry_allows entry host port then some entry else rest
