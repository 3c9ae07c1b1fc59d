-- ===== src/Server/Showing.antt =====
-- `showClients` of src/networking/TCPServer.h with `showInfo` of src/networking/Client.cpp, and
-- `registerCommands` of src/Commands.cpp. `std::setw` fills the next value, and that one only, with
-- blanks behind it.
use pulse_net.Base.{
  ℕ, zero, suc, ◌+◌, ◌-◌, ◌≤◌, ◌≡◌, refl, ap, ◌∙◌, Bool, true, false, Option, none, some, List, [],
  ◌∷◌, ◌++◌, length, replicate, length-append, arith, map,
}
use pulse_net.Base.Int.{ℤ}
use pulse_net.Base.Bytes.{Bytes, codes, concat}
use pulse_net.Utils.Chars.{to_string}
use pulse_net.Utils.Console.{register_command}
use pulse_net.Server.Client.{Client}

-- `os << std::left << std::setfill(' ') << std::setw(width) << text`
unfoldable pub padded : ℕ → Bytes → Bytes
padded width text = text ++ replicate (width - length text) b' '

-- An `int`, as `<<` writes it.
unfoldable pub int_text : ℤ → Bytes
int_text (ℤ.pos n) = to_string n
int_text (ℤ.negsuc n) = b'-' ∷ to_string (suc n)

-- A `bool`, as `<<` writes it.
abbrev pub bool_text : Bool → Bytes
bool_text true = codes "1"
bool_text false = codes "0"

abbrev pub ruler : Bytes
ruler = codes "---------------------------------------------------------------------\n"

-- The values of a row, as they are written.
unfoldable pub cells : Client → List Bytes
unfolding padded int_text
cells c =
    padded 10 (to_string c.id)
    ∷ padded 3 (codes "|")
    ∷ padded 24 c.ip_address
    ∷ padded 3 (codes "|")
    ∷ padded 6 (to_string c.port)
    ∷ padded 3 (codes "|")
    ∷ padded 4 (int_text c.reference_count)
    ∷ codes "|"
    ∷ padded 14 (bool_text c.is_disconnecting)
    ∷ codes "\n"
    ∷ ruler
    ∷ []

unfoldable pub show_info : Client → Bytes
unfolding cells
show_info c = concat (cells c)

unfoldable pub show_header : Bytes
unfolding padded
show_header = concat (
    padded 10 (codes "Client Id")
    ∷ padded 3 (codes "|")
    ∷ padded 24 (codes " Ip Address")
    ∷ padded 3 (codes "|")
    ∷ padded 6 (codes "Port")
    ∷ padded 3 (codes "|")
    ∷ padded 5 (codes "Refs")
    ∷ padded 3 (codes "|")
    ∷ padded 14 (codes "Disconnecting\n")
    ∷ ruler
    ∷ [])

unfoldable pub show_rows : List (Option Client) → Bytes
unfolding show_info
show_rows [] = []
show_rows (none ∷ rest) = show_rows rest
show_rows (some c ∷ rest) = show_info c ++ show_rows rest

-- What is written to the stream that is passed in, and to `std::cout`.
unfoldable pub show_clients : List (Option Client) → Bytes × Bytes
unfolding show_header show_rows
show_clients clients = (show_header, show_rows clients)

-- `registerCommands`: the only handler, which calls `showClients(std::cout)`.
pub data Handler : Type 0 where
  show_connections : Handler

unfoldable pub register_commands : List (Bytes × Handler) → List (Bytes × Handler)
unfolding register_command
register_commands list = register_command (codes "connections") show_connections list

-- What the handler writes to `std::cout`.
unfoldable pub call_handler : Handler → List (Option Client) → Bytes
unfolding show_clients
call_handler show_connections clients = (show_clients clients).0 ++ (show_clients clients).1

-- The texts of a client fit their columns.
pub record FitsColumns (c : Client) : Type 0 where
  pub id_fits : length (to_string c.id) ≤ 10
  pub ip_fits : length c.ip_address ≤ 24
  pub port_fits : length (to_string c.port) ≤ 6
  pub count_fits : length (int_text c.reference_count) ≤ 4

abbrev pub AllFit : List (Option Client) → Type 0
AllFit [] = Unit {0}
AllFit (none ∷ rest) = AllFit rest
AllFit (some c ∷ rest) = FitsColumns c × AllFit rest

-- The clients that are connected.
abbrev pub connected : List (Option Client) → List Client
connected [] = []
connected (none ∷ rest) = connected rest
connected (some c ∷ rest) = c ∷ connected rest

length-replicate : (n x : ℕ) → length (replicate n x) ≡ n
length-replicate zero x = refl
length-replicate (suc n) x = ap suc (length-replicate n x)

length-padded :
    (width : ℕ) (text : Bytes) → length text ≤ width → length (padded width text) ≡ width
unfolding padded
length-padded width text h = omega (
  arith,
  length-append text (replicate (width - length text) b' '),
  length-replicate (width - length text) b' ',
)

length-bool_text : (b : Bool) → length (bool_text b) ≡ 1
length-bool_text true = refl
length-bool_text false = refl

abbrev total : List Bytes → ℕ
total [] = 0
total (x ∷ xs) = length x + total xs

length-concat : (xs : List Bytes) → length (concat xs) ≡ total xs
length-concat [] = refl
length-concat (x ∷ xs) = omega (arith, length-append x (concat xs), length-concat xs)

show_info-length : (c : Client) → FitsColumns c → length (show_info c) ≡ 139
unfolding show_info cells
show_info-length c f =
    let flag = length-bool_text c.is_disconnecting in
    length-concat (cells c)
    ∙ omega (
      arith,
      length-padded 10 (to_string c.id) f.id_fits,
      length-padded 3 (codes "|") (omega arith),
      length-padded 24 c.ip_address f.ip_fits,
      length-padded 6 (to_string c.port) f.port_fits,
      length-padded 4 (int_text c.reference_count) f.count_fits,
      length-padded 14 (bool_text c.is_disconnecting) (omega arith),
    )

abbrev pub AllLong : ℕ → List Bytes → Type 0
AllLong n [] = Unit {0}
AllLong n (x ∷ xs) = (length x ≡ n) × AllLong n xs

-- Where the texts of all clients fit their columns, `showClients` writes to `std::cout` one row for each
-- connected client, in the order of the ids, and every row, with its ruler, has 139 bytes.
pub show_rows-connected :
    (clients : List (Option Client))
    → AllFit clients
    → ((show_clients clients).1 ≡ concat (map show_info (connected clients)))
      × AllLong 139 (map show_info (connected clients))
unfolding show_clients show_rows
show_rows-connected [] f = (refl, tt)
show_rows-connected (none ∷ rest) f = show_rows-connected rest f
show_rows-connected (some c ∷ rest) (f, fs) =
    let (rows, sizes) = show_rows-connected rest fs in
    (ap (λ x. show_info c ++ x) rows, (show_info-length c f, sizes))
