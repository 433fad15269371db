-- ===== src/Vpn/Interface.antt =====
-- Which tunnel interface is up (`detect_tun_interface` of vpn/guard.py). The commands of the operating
-- system and the JSON parser are a `Shell`.
use coda_node.Prelude.{
  ℕ, Bool, false, not, ◌&&◌, ◌||◌, Option, none, some, List, [], ◌∷◌, if◌then◌else◌, is_empty, any,
  ℤ, pos, negsuc, codes, is_space, strip, starts_with, includes, split, splitlines, lower, ◌==◌,
}
use coda_node.Json.{Json, text, array, object, Elements, end, element, get}

abbrev pub Text : Type 0
Text = List ℕ

-- `platform.system()`
pub data System : Type 0 where
  darwin windows linux : System

pub data Command : Type 0 where
  -- `ifconfig`, for all interfaces or for one
  ifconfig : Option Text → Command
  get_net_adapter : Command
  ip_link_show : Text → Command
  ip_link_show_tun : Command

-- What `subprocess.run` gives: the output and the return code, or an exception.
pub data Outcome : Type 0 where
  completed : Text → ℤ → Outcome
  file_not_found timeout_expired : Outcome

pub record Shell : Type 0 where
  pub system : System
  pub run : Command → Outcome
  -- `json.loads`
  pub loads : Text → Option Json

abbrev tunnel_name : Text → Bool
tunnel_name name = starts_with (codes "utun") name || starts_with (codes "tun") name

-- A line that starts an interface's paragraph.
abbrev is_heading : Text → Bool
is_heading [] = false
is_heading (c ∷ line) = not (is_space c)

abbrev before_colon : List Text → Text
before_colon [] = []
before_colon (word ∷ words) = word

-- `current_iface and current_iface.startswith(("utun", "tun"))`
abbrev is_tunnel : Option Text → Bool
is_tunnel none = false
is_tunnel (some name) = tunnel_name name

unfoldable pub scan_ifconfig : Option Text → List Text → Option Text
scan_ifconfig current [] = none
scan_ifconfig current (line ∷ lines) =
    let next = scan_ifconfig (some (before_colon (split b':' line))) lines in
    let rest = scan_ifconfig current lines in
    if is_heading line
    then next
    else if is_tunnel current && starts_with (codes "inet ") (strip line)
    then current
    else rest

-- _parse_darwin_tun_interfaces
unfoldable pub parse_darwin_tun_interfaces : Text → Option Text
unfolding scan_ifconfig
parse_darwin_tun_interfaces output = scan_ifconfig none (splitlines output)

-- `hint and hint_lower not in name.lower() and hint_lower not in description.lower()`
abbrev is_other : Option Text → Text → Text → Bool
is_other none name description = false
is_other (some hint) name description =
    not (is_empty hint)
    && not (includes (lower hint) (lower name))
    && not (includes (lower hint) (lower description))

abbrev markers : List Text
markers = codes "tap-windows" ∷ codes "wintun" ∷ codes "openvpn" ∷ codes "tap adapter" ∷ []

abbrev is_up : Text → Bool
is_up status = starts_with (codes "up") (lower status) && starts_with (lower status) (codes "up")

abbrev judge : Option Text → Option Json → Option Json → Option Json → Option Text
judge hint (some (text name)) (some (text description)) (some (text status)) =
    if not (is_up (codes status)) || is_other hint (codes name) (codes description)
    then none
    else if any (λ m. includes m (lower (codes description))) markers
    then some (codes name)
    else none
judge hint name description status = none

-- The body of the loop: the adapter's name if it is a tunnel that is up.
unfoldable pub check_adapter : Option Text → Json → Option Text
check_adapter hint (object m) =
    judge hint (get "Name" m) (get "InterfaceDescription" m) (get "Status" m)
check_adapter hint adapter = none

unfoldable pub first_adapter : Option Text → Elements → Option Text
unfolding check_adapter
first_adapter hint end = none
first_adapter hint (element adapter more) = elim (check_adapter hint adapter) [
  | some name ↦ some name
  | none ↦ first_adapter hint more
]

abbrev adapters : Option Json → Elements
adapters (some (object m)) = element (object m) end
adapters (some (array es)) = es
adapters _ = end

-- _parse_windows_tun_interfaces
unfoldable pub parse_windows_tun_interfaces : Shell → Text → Option Text → Option Text
unfolding first_adapter
parse_windows_tun_interfaces shell output hint = first_adapter hint (adapters (shell.loads output))

-- The first line with a colon, `parts[1].strip()`.
unfoldable pub scan_ip_link : List Text → Option Text
scan_ip_link [] = none
scan_ip_link (line ∷ lines) = elim (split b':' line) [
  | [] ↦ scan_ip_link lines
  | part ∷ parts ↦ elim parts [ [] ↦ scan_ip_link lines | name ∷ more ↦ some (strip name) ]
]

-- The output of a command that could be run in time.
abbrev output_of : Outcome → Option Text
output_of (completed out code) = some out
output_of _ = none

abbrev succeeds : ℤ → Bool
succeeds (pos n) = n == 0
succeeds (negsuc n) = false

-- `result.returncode == 0 and ("UP" in result.stdout or "up" in result.stdout)`
abbrev confirm : Text → Outcome → Option Text
confirm hint (completed out code) =
    if succeeds code && (includes (codes "UP") out || includes (codes "up") out)
    then some hint
    else none
confirm hint _ = none

abbrev then_parse : (Text → Option Text) → Option Text → Option Text
then_parse parse none = none
then_parse parse (some out) = parse out

abbrev check_hint : Shell → Text → System → Option Text
check_hint shell hint darwin = confirm hint (shell.run (ifconfig (some hint)))
check_hint shell hint windows =
    then_parse (λ out. parse_windows_tun_interfaces shell out (some hint))
      (output_of (shell.run get_net_adapter))
check_hint shell hint linux = confirm hint (shell.run (ip_link_show hint))

abbrev scan_all : Shell → System → Option Text
scan_all shell darwin =
    then_parse parse_darwin_tun_interfaces (output_of (shell.run (ifconfig none)))
scan_all shell windows =
    then_parse (λ out. parse_windows_tun_interfaces shell out none)
      (output_of (shell.run get_net_adapter))
scan_all shell linux =
    then_parse (λ out. scan_ip_link (splitlines out)) (output_of (shell.run ip_link_show_tun))

-- detect_tun_interface; an empty hint counts as none.
unfoldable pub detect_tun_interface : Shell → Option Text → Option Text
detect_tun_interface shell none = scan_all shell shell.system
detect_tun_interface shell (some hint) =
    if is_empty hint then scan_all shell shell.system else check_hint shell hint shell.system
