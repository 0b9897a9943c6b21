-- ===== src/Mailbox/Sender.antt =====
-- The trust boundary: `parse_sender_allowlist` and `sender_domain` of backend/pipeline/entry.py.
use claim_automation_cloud.Prelude.{
  ℕ, Bool, ◌||◌, Option, none, some, List, [], ◌∷◌, ◌==◌, filter, map, any, if◌then◌else◌,
}
use claim_automation_cloud.Text.{Text, codes, contains, nonempty, strip, split_on, Runtime}
use claim_automation_cloud.Exec.{Result, ok, err, value_error}
use claim_automation_cloud.Claim.Message.{Message, header}

-- The text after the last `sep`, `none` where there is none: `s.rpartition(sep)[2]`.
unfoldable pub after_last : ℕ → Text → Option Text
after_last sep [] = none
after_last sep (c ∷ s) = elim (after_last sep s) [
  | some t ↦ some t
  | none ↦ if c == sep then some s else none
]

module _ (py : Runtime) where
  -- A stripped entry that is an address, or holds white space.
  abbrev pub is_bad_entry : Text → Bool
  is_bad_entry entry = contains (codes "@") entry || any py.is_space entry

  abbrev pub clean_entry : Text → Text
  clean_entry entry = py.lower (strip py.is_space entry)

  -- The set of entries as a list; the messages leave out how many entries are bad.
  unfoldable pub parse_sender_allowlist : Text → Result (List Text)
  parse_sender_allowlist raw =
      let kept = filter (λ entry. nonempty (strip py.is_space entry)) (split_on b',' raw) in
      let entries = map clean_entry kept in
      elim entries [
        | [] ↦ err (value_error (codes "CLAIM_SENDER_ALLOWLIST is not configured"))
        | e ∷ es ↦
            if any is_bad_entry (e ∷ es)
            then err
                (value_error (codes "CLAIM_SENDER_ALLOWLIST has entries that are not bare domains"))
            else ok (e ∷ es)
      ]

  abbrev lower_domain : Option Text → Option Text
  lower_domain none = none
  lower_domain (some t) = some (py.lower t)

  abbrev domain_of : Option Text → Option Text
  domain_of none = none
  domain_of (some raw) = lower_domain (after_last b'@' (py.parse_address raw))

  unfoldable pub sender_domain : Message → Option Text
  unfolding after_last
  sender_domain message = domain_of (header (codes "From") message)
