-- ===== src/Parse/Psl.antt =====
-- src/parse/psl.rs. `List::domain` of the crate publicsuffix, over the bundled list, is a parameter.
use ctwatch.Base.{Option, none, some}
use ctwatch.Base.Text.{Text, text, strip_prefix}

-- `name.strip_prefix("*.").unwrap_or(name)`
unfoldable pub strip_wildcard : Text → Text
unfolding strip_prefix
strip_wildcard name = elim (strip_prefix (text "*.") name) [ some s ↦ s | none ↦ name ]

-- A domain that is found is a part of the input, hence valid UTF-8.
unfoldable pub registered_domain : (Text → Option Text) → Text → Option Text
unfolding strip_wildcard
registered_domain domain name = domain (strip_wildcard name)

-- `registered_domain(name).unwrap_or_else(|| name.clone())`
unfoldable pub registered_or_name : (Text → Option Text) → Text → Text
unfolding registered_domain
registered_or_name domain name = elim (registered_domain domain name) [ some d ↦ d | none ↦ name ]
