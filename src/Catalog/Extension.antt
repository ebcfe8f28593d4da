-- ===== src/Catalog/Extension.antt =====
-- bazaar-service/src/catalog/ingestion.ts: `validateExtension` and `validateJsonSpec`.
--
-- A text is the list of the codes of its characters. What `verifyOwnerSignature`, `new URL`, `isIP`
-- and `decodeURIComponent` answer are fields.
pub mod External
pub mod References
use stellar_facilitator.Common.{
  ℕ, suc, ◌+◌, String, Bool, true, false, not, ◌&&◌, ◌||◌, Option, none, some, List, [], ◌∷◌, ◌==◌,
  string_eq, nat_eq, if◌then◌else◌, ltb, leb, every, length,
}

abbrev pub Text : Type 0
Text = List ℕ

-- A JSON value, with its numbers, Booleans and null as one.
mutual
  pub data Json : Type 0 where
    scalar : Json
    text : Text → Json
    array : Items → Json
    object : Members → Json

  pub data Items : Type 0 where
    no_items : Items
    item : Json → Items → Items

  pub data Members : Type 0 where
    no_members : Members
    member : Text → Json → Members → Members

abbrev pub is_empty : Text → Bool
is_empty [] = true
is_empty (_ ∷ _) = false

unfoldable pub starts_with : Text → Text → Bool
starts_with t [] = true
starts_with [] (c ∷ prefix) = false
starts_with (d ∷ t) (c ∷ prefix) = let rest = starts_with t prefix in d == c && rest

unfoldable pub includes_text : Text → Text → Bool
includes_text [] part = is_empty part
includes_text (c ∷ t) part = let later = includes_text t part in starts_with (c ∷ t) part || later

-- `toLowerCase()`, on the letters A to Z; the others are not part of a text that is looked for.
unfoldable pub to_lower_case : Text → Text
to_lower_case [] = []
to_lower_case (c ∷ t) =
    let rest = to_lower_case t in (if leb 65 c && leb c 90 then c + 32 else c) ∷ rest

abbrev pub same_text : Text → Text → Bool
same_text s t = starts_with s t && (length s == length t)

-- "$ref", "$id" or "$schema".
unfoldable pub is_reference_key : Text → Bool
is_reference_key key =
    same_text key (36 ∷ 114 ∷ 101 ∷ 102 ∷ [])
    || same_text key (36 ∷ 105 ∷ 100 ∷ [])
    || same_text key (36 ∷ 115 ∷ 99 ∷ 104 ∷ 101 ∷ 109 ∷ 97 ∷ [])

-- "http://", "https://", "ftp://", "//" and "file://".
unfoldable pub is_external : Text → Bool
is_external lower =
    starts_with lower (104 ∷ 116 ∷ 116 ∷ 112 ∷ 58 ∷ 47 ∷ 47 ∷ [])
    || starts_with lower (104 ∷ 116 ∷ 116 ∷ 112 ∷ 115 ∷ 58 ∷ 47 ∷ 47 ∷ [])
    || starts_with lower (102 ∷ 116 ∷ 112 ∷ 58 ∷ 47 ∷ 47 ∷ [])
    || starts_with lower (47 ∷ 47 ∷ [])
    || starts_with lower (102 ∷ 105 ∷ 108 ∷ 101 ∷ 58 ∷ 47 ∷ 47 ∷ [])

unfoldable pub external_text : Json → Bool
external_text (text t) = is_external (to_lower_case t)
external_text scalar = false
external_text (array items) = false
external_text (object ms) = false

-- The reason for which a specification is rejected.
abbrev or_reason : Option String → Option String → Option String
or_reason (some reason) other = some reason
or_reason none other = other

unfoldable mutual
  pub validate_json_spec : Json → ℕ → Option String
  validate_json_spec scalar depth =
      if ltb 16 depth then some "spec exceeds maximum nesting depth of 16" else none
  validate_json_spec (text t) depth =
      if ltb 16 depth then some "spec exceeds maximum nesting depth of 16" else none
  validate_json_spec (array items) depth =
      let rest = validate_items items depth in
      if ltb 16 depth then some "spec exceeds maximum nesting depth of 16" else rest
  validate_json_spec (object ms) depth =
      let rest = validate_members ms depth in
      if ltb 16 depth then some "spec exceeds maximum nesting depth of 16" else rest

  pub validate_items : Items → ℕ → Option String
  validate_items no_items depth = none
  validate_items (item value items) depth =
      or_reason (validate_json_spec value (depth + 1)) (validate_items items depth)

  pub validate_members : Members → ℕ → Option String
  validate_members no_members depth = none
  validate_members (member key value ms) depth =
      let rest = or_reason (validate_json_spec value (depth + 1)) (validate_members ms depth) in
      if is_reference_key key && external_text value
      then some "external URI reference not allowed"
      else rest

-- `new URL(iconUrl)`, where that does not throw. `encoded` is the test of the host name against
-- hexadecimal and decimal addresses.
pub record IconUrl : Type 0 where
  pub http_or_https : Bool
  pub is_ip : Bool
  pub hostname : Text
  pub encoded : Bool

-- `icon_url` and `route_template` are `none` where they are missing or empty, and inside `none`
-- where they do not parse.
pub record BazaarExtension : Type 0 where
  pub owner_signature : Option (Option String)
  pub service_name : Option Text
  pub tags : Option (List Text)
  pub icon_url : Option (Option IconUrl)
  pub route_template : Option (Option Text)
  pub input_spec : Option Json
  pub output_spec : Option Json

-- /^[\x20-\x7e]+$/
abbrev is_printable : Text → Bool
is_printable t = not (is_empty t) && every (λ c. leb 32 c && leb c 126) t

unfoldable pub validate_service_name : Option Text → Option String
validate_service_name none = none
validate_service_name (some name) =
    if is_empty name
    then none
    else if not (is_printable name)
    then some "serviceName contains non-printable characters"
    else if ltb 32 (length name)
    then some "serviceName exceeds 32 characters"
    else none

unfoldable pub validate_each_tag : List Text → Option String
validate_each_tag [] = none
validate_each_tag (tag ∷ tags) =
    let rest = validate_each_tag tags in
    if not (is_printable tag)
    then some "tag contains non-printable characters"
    else if ltb 32 (length tag)
    then some "tag exceeds 32 characters"
    else rest

unfoldable pub validate_tags : Option (List Text) → Option String
validate_tags none = none
validate_tags (some tags) =
    let rest = validate_each_tag tags in
    if ltb 5 (length tags) then some "too many tags (max 5)" else rest

-- "localhost", "ip6-loopback" and ".localhost"
abbrev localhost : Text
localhost = 108 ∷ 111 ∷ 99 ∷ 97 ∷ 108 ∷ 104 ∷ 111 ∷ 115 ∷ 116 ∷ []

abbrev ip6_loopback : Text
ip6_loopback = 105 ∷ 112 ∷ 54 ∷ 45 ∷ 108 ∷ 111 ∷ 111 ∷ 112 ∷ 98 ∷ 97 ∷ 99 ∷ 107 ∷ []

unfoldable pub ends_with : Text → Text → Bool
ends_with [] part = is_empty part
ends_with (c ∷ t) part = let later = ends_with t part in same_text (c ∷ t) part || later

-- The host name in lower case.
abbrev is_loopback : Text → Bool
is_loopback host =
    same_text host localhost || same_text host ip6_loopback || ends_with host (46 ∷ localhost)

unfoldable pub validate_icon_url : Option (Option IconUrl) → Option String
validate_icon_url none = none
validate_icon_url (some none) = some "Invalid URL"
validate_icon_url (some (some url)) =
    if not url.http_or_https
    then some "iconUrl must use http or https"
    else if url.is_ip
    then some "iconUrl contains IP literal"
    else if is_loopback url.hostname
    then some "iconUrl targets localhost/loopback"
    else if url.encoded
    then some "iconUrl contains encoded IP address"
    else none

unfoldable pub validate_route_template : Option (Option Text) → Option String
validate_route_template none = none
validate_route_template (some none) = some "routeTemplate contains invalid URL encoding"
validate_route_template (some (some decoded)) =
    if includes_text decoded (46 ∷ 46 ∷ [])
    then some "routeTemplate contains path traversal (..)"
    else if includes_text decoded (58 ∷ 47 ∷ 47 ∷ [])
    then some "routeTemplate contains URL scheme injection (://)"
    else none

unfoldable pub validate_spec : Option Json → Option String
validate_spec none = none
validate_spec (some spec) = validate_json_spec spec 0

abbrev owner_reason : Option (Option String) → Option String
owner_reason none = none
owner_reason (some answer) = answer

-- The reason of the first rule that rejects; the prefixes of the reasons are left out.
unfoldable pub validate_extension : BazaarExtension → Option String
validate_extension e = or_reason (owner_reason e.owner_signature) (
    or_reason (validate_service_name e.service_name) (
      or_reason (validate_tags e.tags) (
        or_reason (validate_icon_url e.icon_url) (
          or_reason (validate_route_template e.route_template)
            (or_reason (validate_spec e.input_spec) (validate_spec e.output_spec))))))
