-- ===== src/Config/Fields.antt =====
-- config.go: `rawEndpoint` and the checks of its fields.
use uploadfun.Base.{
  ℕ, ℤ, String, ◌<>◌, ◌==◌, Bool, true, false, not, ◌&&◌, ◌||◌, List, [], ◌∷◌, ◌++◌, any, none,
  some, Err, root, wrap, other, if◌then◌else◌,
}
use uploadfun.Base.Text.{is_empty, quote, show_ℕ}
use uploadfun.Upload.{
  Protocol, protocol_ftp, protocol_ftps, protocol_sftp, OverwriteMode, overwrite_delete_first,
  overwrite_direct,
}
use uploadfun.Config.Policy.{RawPolicy}
use uploadfun.Config.Env.{Surroundings, interpolate_env}

pub record RawEndpoint : Type 0 where
  pub name : String
  pub protocol : String
  pub host : String
  pub port : ℤ
  pub username : String
  pub password : String
  pub private_key : String
  pub overwrite : String
  pub insecure_skip_verify : Bool
  pub policy : RawPolicy

pub record RawConfig : Type 0 where
  pub endpoints : List RawEndpoint
  pub policy : RawPolicy

pub record ResolvedFields : Type 0 where
  pub name : String
  pub host : String
  pub username : String
  pub password : String
  pub private_key : String
  pub overwrite_raw : String

abbrev pub error_text : String → Err
error_text text = root other text

unfoldable pub endpoint_label : ℕ → String → String
endpoint_label index name =
    if not (is_empty name) then "endpoint " <> quote name else "endpoints[" <> show_ℕ index <> "]"

-- The function `resolve` of `interpolateFields`, with the error that it adds.
unfoldable pub resolve_field : Surroundings → String → String → String → String × List Err
resolve_field around label field value =
    let (v, err) = interpolate_env around value in
    elim err [ none ↦ (v, []) | some e ↦ (v, wrap (label <> ": " <> field <> ": ") e ∷ []) ]

unfoldable pub interpolate_fields : Surroundings → RawEndpoint → String → ResolvedFields × List Err
interpolate_fields around re label =
    let (name, name_errs) = resolve_field around label "name" re.name in
    let (host, host_errs) = resolve_field around label "host" re.host in
    let (username, username_errs) = resolve_field around label "username" re.username in
    let (password, password_errs) = resolve_field around label "password" re.password in
    let (private_key, key_errs) = resolve_field around label "private_key" re.private_key in
    let (overwrite_raw, overwrite_errs) = resolve_field around label "overwrite" re.overwrite in
    (
      record {
        name = name;
        host = host;
        username = username;
        password = password;
        private_key = private_key;
        overwrite_raw = overwrite_raw;
      },
      name_errs
          ++ (host_errs ++ (username_errs ++ (password_errs ++ (key_errs ++ overwrite_errs)))),
    )

-- The errors, and the names seen so far.
unfoldable pub validate_name : String → String → List String → List Err × List String
validate_name label name seen =
    if is_empty name
    then (error_text (label <> ": name is required") ∷ [], seen)
    else if any (λ (n : String). n == name) seen
    then (error_text (label <> ": duplicate endpoint name") ∷ [], seen)
    else ([], name ∷ seen)

unfoldable pub validate_protocol : String → String → Protocol × List Err
validate_protocol label protocol = (
  protocol,
  if protocol == protocol_ftp || protocol == protocol_ftps || protocol == protocol_sftp
      then []
      else if is_empty protocol
      then error_text (label <> ": protocol is required") ∷ []
      else error_text (label <> ": unknown protocol " <> quote protocol) ∷ [],
)

unfoldable pub error_if : Bool → String → List Err
error_if true text = error_text text ∷ []
error_if false text = []

unfoldable pub validate_auth : String → Protocol → String → String → List Err
validate_auth label protocol password private_key =
    if protocol == protocol_ftp || protocol == protocol_ftps
    then error_if (not (is_empty private_key))
        (label <> ": private_key is not supported for protocol " <> quote protocol)
      ++ error_if (is_empty password)
          (label <> ": password is required for protocol " <> quote protocol)
    else if protocol == protocol_sftp
    then error_if (is_empty password && is_empty private_key)
        (label <> ": sftp requires password or private_key")
    else []

unfoldable pub resolve_overwrite : String → String → OverwriteMode × List Err
resolve_overwrite label raw =
    if is_empty raw
    then (overwrite_delete_first, [])
    else if raw == overwrite_delete_first || raw == overwrite_direct
    then (raw, [])
    else (
      overwrite_delete_first,
      error_text (label <> ": unknown overwrite mode " <> quote raw) ∷ [],
    )
