-- ===== src/Samples/Hosts.antt =====
-- The resolver file of internal/forward/alias.go.
use windmill_gate.Base.{true, ◌≡◌, refl, Bytes, codes, ◌++◌, all}
use windmill_gate.Base.Results.{ok, err}
use windmill_gate.Base.Fields.Blanks.{word_byte}
use windmill_gate.Forward.Hosts.{
  normalize_hostname, add_owned_line, remove_owned_line, owned_line, terminated, has_hostname,
  has_an_entry,
}
use windmill_gate.Forward.Hosts.Restores.{remove_owned_line-add_owned_line}

abbrev hosts : Bytes
hosts = codes "127.0.0.1 localhost"

abbrev name : Bytes
name = codes "web.example.com"

abbrev tag : Bytes
tag = codes "gate:ABCDEFGH"

normal : normalize_hostname (codes " Web.Example.com. ") ≡ ok name
unfolding normalize_hostname
normal = refl

plain_tag : all word_byte tag ≡ true
unfolding word_byte
plain_tag = refl

added : add_owned_line hosts name tag ≡ ok (terminated hosts ++ owned_line name tag)
unfolding add_owned_line
added = refl

-- the name is there already, in other letters and with a dot
refused : add_owned_line (codes "10.0.0.1 a WEB.example.COM. # x") name tag ≡ err has_an_entry
unfolding add_owned_line
refused = refl

remove_owned_line-add_owned_line_example :
    (remove_owned_line (terminated hosts ++ owned_line name tag) name tag ≡ terminated hosts)
    × (has_hostname (owned_line name tag) name ≡ true)
remove_owned_line-add_owned_line_example =
    remove_owned_line-add_owned_line (codes " Web.Example.com. ") name tag hosts
      (terminated hosts ++ owned_line name tag) normal plain_tag added
