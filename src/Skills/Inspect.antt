-- ===== src/Skills/Inspect.antt =====
-- internal/skills/package.go: inspect and stringList, the report on a package's files.
use Prim.Native.String.{◌++◌ as concat}
use toolhub.Common.{
  ℕ, ◌/◌, ◌%◌, code, String, Bool, true, false, ◌&&◌, ◌||◌, Option, none, some, List, [], ◌∷◌, ◌++◌,
  length, any, member, ltb, eqb, ◌==◌, starts_with, if◌then◌else◌,
}
use toolhub.Common.Text.{trim_space, to_lower, to_upper}
use toolhub.Common.Sort.{sort_by}
use toolhub.Json.{Json, Items, Fields, lookup_field}
use toolhub.Json.Json.{str, arr}
use toolhub.Json.Items.{nil, cons}
use toolhub.Skills.{PackageFile, Finding, ScanReport, Library, total_size}
use toolhub.Skills.Paths.{base, ext}

abbrev script_extensions : List String
script_extensions =
    ".sh" ∷ ".bash" ∷ ".zsh" ∷ ".fish" ∷ ".ps1" ∷ ".bat" ∷ ".cmd" ∷ ".py" ∷ ".js" ∷ ".ts" ∷ []

abbrev url_pattern : String
url_pattern = "https?://[^\\s<>)\\]\"']+"

abbrev secret_pattern : String
secret_pattern =
    "(?i)(?:api[_-]?key|secret|password|token|private[_-]?key)\\s*[:=]\\s*[\"']?[A-Za-z0-9_./+=-]{12,}"

-- mode&0111 != 0
unfoldable pub is_executable : ℕ → Bool
is_executable mode = eqb (mode % 2) 1 || eqb (mode / 8 % 2) 1 || eqb (mode / 64 % 2) 1

-- The names of the files that a test picks.
unfoldable pub names_where : (PackageFile → Bool) → List PackageFile → List String
names_where p [] = []
names_where p (f ∷ fs) = let rest = names_where p fs in if p f then f.name ∷ rest else rest

-- strings.TrimRight(found, ".,")
trim_marks : String → String
trim_marks String.[] = String.[]
trim_marks (String.◌∷◌ c s) =
    let rest = trim_marks s in
    if (eqb (code c) b'.' || eqb (code c) b',') && rest == "" then String.[] else String.◌∷◌ c rest

-- strings.FieldsFunc on commas, spaces and line feeds; `word` is what of a field is read.
fields_func : String → String → List String
fields_func word String.[] = if word == "" then [] else word ∷ []
fields_func word (String.◌∷◌ c s) = elim (eqb (code c) b',' || eqb (code c) 32 || eqb (code c) 10) [
  | true ↦ let rest = fields_func "" s in if word == "" then rest else word ∷ rest
  | false ↦ fields_func (concat word (String.◌∷◌ c String.[])) s
]

string_items : Items → List String
string_items nil = []
string_items (cons (str text) items) =
    let rest = string_items items in if trim_space text == "" then rest else trim_space text ∷ rest
string_items (cons _ items) = string_items items

-- stringList
unfoldable pub string_list : Option Json → List String
unfolding fields_func string_items
string_list (some (str text)) = fields_func "" text
string_list (some (arr items)) = string_items items
string_list _ = []

-- A set of texts as a list.
add : String → List String → List String
add x xs = if member x xs then xs else x ∷ xs

-- hasSeverity
unfoldable pub has_severity : String → List Finding → Bool
has_severity severity = any (λ f. f.severity == severity)

-- A comma-ok string assertion: the empty text for another value and for none.
unfoldable pub string_value : Option Json → String
string_value (some (str text)) = text
string_value _ = ""

module _ (lib : Library) where
  open lib use {matches, find_all, parse_url, unicode_lower, unicode_upper}

  add_urls : List String → List String → List String
  unfolding trim_marks add
  add_urls [] urls = urls
  add_urls (found ∷ more) urls = add_urls more (elim (parse_url (trim_marks found)) [
    | none ↦ urls
    | some (host, printed) ↦ if host == "" then urls else add printed urls
  ])

  all_urls : List PackageFile → List String → List String
  unfolding add_urls
  all_urls [] urls = urls
  all_urls (f ∷ fs) urls = all_urls fs (add_urls (find_all url_pattern f.body) urls)

  is_script : PackageFile → Bool
  is_script f = member (to_lower unicode_lower (ext f.name)) script_extensions

  secret_findings : List PackageFile → List Finding
  secret_findings [] = []
  secret_findings (f ∷ fs) =
      let rest = secret_findings fs in
      if matches secret_pattern f.body
      then record {
        code = "possible-secret";
        severity = "high";
        path = f.name;
        message = "Possible embedded credential requires manual review";
      }
        ∷ rest
      else rest

  -- The first file that is named like a licence.
  license_file : List PackageFile → String
  license_file [] = ""
  license_file (f ∷ fs) =
      let rest = license_file fs in
      if starts_with (to_upper unicode_upper (base f.name)) "LICENSE"
      then concat "file:" f.name
      else rest

  unfoldable pub license_of : List PackageFile → Fields → String
  unfolding license_file
  license_of files manifest =
      let declared = string_value (lookup_field "license" manifest) in
      if declared == "" then license_file files else declared

  unfoldable pub findings_of : List PackageFile → Fields → List Finding
  unfolding secret_findings
  findings_of files manifest =
      secret_findings files
      ++ (if license_of files manifest == ""
          then record {
            code = "license-missing";
            severity = "medium";
            path = "";
            message = "No license declaration was found";
          }
            ∷ []
          else [])

  -- inspect
  unfoldable pub inspect : List PackageFile → Fields → ScanReport
  unfolding all_urls is_script
  inspect files manifest =
      let scripts : List String = names_where is_script files in
      let executables : List String = names_where (λ f. is_executable f.mode) files in
      let urls : List String = sort_by (λ u. u) (all_urls files []) in
      let tools : List String = string_list (lookup_field "allowed-tools" manifest) in
      let findings : List Finding = findings_of files manifest in
      record {
        risk_level =
            if ltb 0 (length executables) || has_severity "high" findings
            then "high"
            else if ltb 0 (length scripts)
                || ltb 0 (length urls)
                || ltb 0 (length tools)
                || license_of files manifest == ""
            then "medium"
            else "low";
        findings = findings;
        file_count = length files;
        size_bytes = total_size files;
        scripts = scripts;
        executables = executables;
        external_urls = urls;
        allowed_tools = tools;
        license = license_of files manifest;
      }
