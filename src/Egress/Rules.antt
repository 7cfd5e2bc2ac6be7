-- ===== src/Egress/Rules.antt =====
-- The matcher of keep_spec/egress.py against the meaning of the allowlist's grammar.
use agent_keep.Base.{
  ℕ, suc, ◌≤◌, length-append, true, false, ◌≡◌, ◌≢◌, refl, ap, ◌↔◌, ◌⊎◌, inl, inr, none, some, List,
  [], ◌∷◌, ◌++◌, arith, ==_iff, length, All, Bool-cases,
}
use agent_keep.Egress.Text.{
  Text, same_text_iff, lower, lower_code, ends_with_iff, all_digits, number_from,
}
use agent_keep.Egress.Match.{
  rpartition, chomp, is_port, with_port, split_entry, wildcard_suffix, host_covers,
  egress_entry_allows, match_allowlist,
}

-- What an entry is written for: one host or the subdomains of a domain, at one port or at every one.
pub data Pattern : Type 0 where
  host_pattern : Text → Pattern
  subdomains : Text → Pattern

abbrev pub written : Pattern → Text
written (host_pattern h) = h
written (subdomains d) = b'*' ∷ b'.' ∷ d

-- The documented meaning: hosts compare case-insensitively, a wildcard covers what ends in a dot and
-- the domain.
abbrev pub Names : Pattern → Text → Type 0
Names (host_pattern h) host = lower host ≡ lower h
Names (subdomains d) host = (label : Text) × (lower host ≡ label ++ b'.' ∷ lower d)

abbrev pub NoColon : Text → Type 0
NoColon = All (λ c. c ≢ b':')

-- A host of the grammar: no colon, and it does not begin with the wildcard's star.
abbrev pub IsHost : Text → Type 0
IsHost [] = Unit
IsHost (c ∷ s) = (c ≢ b'*') × NoColon (c ∷ s)

abbrev pub IsPattern : Pattern → Type 0
IsPattern (host_pattern h) = IsHost h
IsPattern (subdomains d) = NoColon d

pub rpartition-none : (s : Text) → NoColon s → rpartition s ≡ none
unfolding rpartition
rpartition-none [] h = refl
rpartition-none (c ∷ s) h = rw (rpartition-none s h.1, rpartition) (ground (arith, h.0))

pub rpartition-append : (s p : Text) → NoColon p → rpartition (s ++ b':' ∷ p) ≡ some (s, p)
unfolding rpartition
rpartition-append [] p h = rw (rpartition-none p h, rpartition)
rpartition-append (c ∷ s) p h = rw (rpartition-append s p h, rpartition)

written-NoColon : (p : Pattern) → IsPattern p → NoColon (written p)
written-NoColon (host_pattern []) h = tt
written-NoColon (host_pattern (c ∷ s)) h = h.1
written-NoColon (subdomains d) h = (omega arith, (omega arith, h))

pub digits-NoColon : (p : Text) → all_digits p ≡ true → NoColon p
unfolding all_digits
digits-NoColon [] h = tt
digits-NoColon (c ∷ p) h = (ground arith, digits-NoColon p (ground arith))

pub chomp-digits : (p : Text) → all_digits p ≡ true → chomp p ≡ p
unfolding chomp all_digits
chomp-digits [] h = refl
chomp-digits (c ∷ []) h = ground arith
chomp-digits (c ∷ d ∷ p) h = ap (◌∷◌ c) (chomp-digits (d ∷ p) (ground arith))

pub split_entry-bare : (p : Pattern) → IsPattern p → split_entry (written p) ≡ (written p, none)
unfolding split_entry
split_entry-bare p h = rw (rpartition-none (written p) (written-NoColon p h), with_port)

pub split_entry-port :
    (p : Pattern) (port : Text)
    → is_port port ≡ true
    → split_entry (written p ++ b':' ∷ port) ≡ (written p, some (number_from 0 port))
unfolding split_entry
split_entry-port p port ok_port =
    let digits : all_digits port ≡ true = ground arith in
    rw (
      rpartition-append (written p) port (digits-NoColon port digits),
      with_port,
      chomp-digits port digits,
      ok_port,
    )

not-wildcard : (h : Text) → IsHost h → wildcard_suffix (lower h) ≡ none
unfolding lower lower_code
not-wildcard [] h = refl
not-wildcard (c ∷ []) h = refl
not-wildcard (c ∷ d ∷ s) h = ground (arith, h.0)

pub host_covers-Names :
    (p : Pattern) (host : Text) → IsPattern p → (host_covers (written p) host ≡ true) ↔ Names p host
unfolding host_covers lower lower_code
host_covers-Names (host_pattern h) host v =
    rw (not-wildcard h v) (same_text_iff (lower host) (lower h))
host_covers-Names (subdomains d) host v = ends_with_iff (lower host) (b'.' ∷ lower d)

-- An entry without a port covers a target exactly when its host is named, at every port; an entry
-- with a port of one to five digits covers it exactly when the port is that number too.
pub egress_entry_allows_iff :
    (p : Pattern) (digits host : Text) (port : ℕ)
    → IsPattern p
    → is_port digits ≡ true
    → ((egress_entry_allows (written p) host port ≡ true) ↔ Names p host)
      × ((egress_entry_allows (written p ++ b':' ∷ digits) host port ≡ true)
          ↔ ((number_from 0 digits ≡ port) × Names p host))
unfolding egress_entry_allows
egress_entry_allows_iff p digits host port v d = (
  rw (split_entry-bare p v) (host_covers-Names p host v),
  rw (split_entry-port p digits d) (
    λ e. (
      ground (arith, ==_iff (number_from 0 digits) port),
      (host_covers-Names p host v).0 (ground arith),
    ),
    λ (same, named).
        ground (arith, ==_iff (number_from 0 digits) port, (host_covers-Names p host v).1 named),
  ),
)

length-lower : (s : Text) → length (lower s) ≡ length s
unfolding lower
length-lower [] = refl
length-lower (c ∷ s) = ap suc (length-lower s)

-- A wildcard covers no host that is not longer than its domain, so never the domain itself.
wildcard_skips_apex :
    (d host : Text) (port : ℕ)
    → NoColon d
    → length host ≤ length d
    → egress_entry_allows (written (subdomains d)) host port ≡ false
unfolding all_digits
wildcard_skips_apex d host port v short =
    elim (Bool-cases (egress_entry_allows (written (subdomains d)) host port)) [
      | inl covered ↦
          let (label, e) =
            (egress_entry_allows_iff (subdomains d) (b'1' ∷ []) host port v refl).0.0 covered in
          absurd (
            omega (
              arith,
              ap length e,
              length-lower host,
              length-lower d,
              length-append label (b'.' ∷ lower d),
            ))
      | inr refused ↦ refused
    ]

-- The verdict on a target: the first entry that covers it, all before it do not; and `none`, the
-- refusal, exactly when no entry covers it.
pub match_allowlist_first :
    (allowlist : List Text) (host : Text) (port : ℕ)
    → ((match_allowlist allowlist host port ≡ none)
        × All (λ e. egress_entry_allows e host port ≡ false) allowlist)
      ⊎ ((entry : Text) × (before after : List Text) × (match_allowlist allowlist host port
            ≡ some entry)
          × (allowlist ≡ before ++ entry ∷ after)
          × (egress_entry_allows entry host port ≡ true)
          × All (λ e. egress_entry_allows e host port ≡ false) before)
unfolding match_allowlist
match_allowlist_first [] host port = inl (refl, tt)
match_allowlist_first (e ∷ es) host port = elim (Bool-cases (egress_entry_allows e host port)) [
  | inl hit ↦ inr (e, [], es, rw hit, refl, hit, tt)
  | inr miss ↦ elim (match_allowlist_first es host port) [
    | inl (n, all) ↦ inl (rw miss n, (miss, all))
    | inr (f, before, after, m, split, covers, all) ↦
        inr (f, e ∷ before, after, rw miss m, ap (◌∷◌ e) split, covers, (miss, all))
  ]
]
