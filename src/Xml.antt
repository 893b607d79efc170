-- ===== src/Xml.antt =====
-- The attributes of src/tws_xml.cpp: the macros ADD_ATTR_* and GET_ATTR_* of src/tws_xml.h. A struct is
-- here the values of its members by name; the functions that write and read it are tables of them.
-- libxml2 and the conversions of the C library are parameters.
pub mod Contracts
pub mod Orders
pub mod Rows
pub mod Agree
pub mod Writing
pub mod Reading
pub mod RoundTrip
pub mod Stream
pub mod Documents
pub mod Trees
mod Tests
use Prim.Native.String.{String}
use twstools.Base.{
  ℕ, ◌==◌, ◌≡◌, ◌≢◌, Bool, true, false, not, ◌&&◌, Option, none, some, List, [], ◌∷◌, if◌then◌else◌,
}
use twstools.Base.Int.{ℤ, pos, negsuc, eqb_ℤ, IsInt, ◌≤ℤ◌}
use twstools.Base.Text.{Text, bytes, text_eq}
use twstools.Requests.{Double}

-- The type that a macro is for.
pub data Kind : Type 0 where
  int_attr long_attr long_long_attr double_attr bool_attr string_attr : Kind

-- The value of a member.
pub data Value : Type 0 where
  number : ℤ → Value
  real : Double → Value
  flag : Bool → Value
  text : Text → Value

-- A use of one of the macros: the name of the attribute, the member, and the macro.
pub record Field : Type 0 where
  pub attr : Text
  pub member : Text
  pub kind : Kind

abbrev pub field : String → Kind → Field
field name kind = record { attr = bytes name; member = bytes name; kind = kind }

abbrev pub Struct : Type 0
Struct = Text → Value

-- libxml2's xmlGetProp and xmlNewProp, and snprintf, atoi and their kin; `same_double` is == of doubles.
pub record XmlLib : Type 1 where
  pub Node : Type 0
  pub get_prop : Text → Node → Option Text
  pub new_prop : Text → Text → Node → Node
  pub print_int : ℤ → Text
  pub print_long : ℤ → Text
  pub print_long_long : ℤ → Text
  pub print_double : Double → Text
  pub atoi : Text → ℤ
  pub atol : Text → ℤ
  pub atoll : Text → ℤ
  pub atof : Text → Double
  pub same_double : Double → Double → Bool

-- The values that a long and a long long hold.
abbrev pub IsLong : ℤ → Type 0
IsLong a = (negsuc 9223372036854775807 ≤ℤ a) × (a ≤ℤ pos 9223372036854775807)

-- What the code relies on, as the libraries document it.
pub record XmlLaws (lib : XmlLib) : Type 0 where
  pub get_new :
      (n v : Text) (x : lib.Node)
      → lib.get_prop n x ≡ none
      → lib.get_prop n (lib.new_prop n v x) ≡ some v
  pub get_other :
      (n m v : Text) (x : lib.Node) → n ≢ m → lib.get_prop m (lib.new_prop n v x) ≡ lib.get_prop m x
  pub atoi_print : (a : ℤ) → IsInt a → lib.atoi (lib.print_int a) ≡ a
  pub atol_print : (a : ℤ) → IsLong a → lib.atol (lib.print_long a) ≡ a
  pub atoll_print : (a : ℤ) → IsLong a → lib.atoll (lib.print_long_long a) ≡ a
  pub atoi_one : lib.atoi (bytes "1") ≡ pos 1
  pub atoi_zero : lib.atoi (bytes "0") ≡ pos 0

module _ (lib : XmlLib) where
  -- a == b, of two members of a struct
  unfoldable pub same_value : Value → Value → Bool
  same_value (number a) (number b) = eqb_ℤ a b
  same_value (real a) (real b) = lib.same_double a b
  same_value (flag true) (flag b) = b
  same_value (flag false) (flag b) = not b
  same_value (text a) (text b) = text_eq a b
  same_value _ _ = false

  -- The text of the attribute; a macro is used on members of its type only.
  unfoldable pub print : Kind → Value → Text
  print int_attr (number a) = lib.print_int a
  print long_attr (number a) = lib.print_long a
  print long_long_attr (number a) = lib.print_long_long a
  print double_attr (real d) = lib.print_double d
  print bool_attr (flag true) = bytes "1"
  print bool_attr (flag false) = bytes "0"
  print string_attr (text s) = s
  print _ _ = []

  unfoldable pub parse : Kind → Text → Value
  parse int_attr s = number (lib.atoi s)
  parse long_attr s = number (lib.atol s)
  parse long_long_attr s = number (lib.atoll s)
  parse double_attr s = real (lib.atof s)
  parse bool_attr s = flag (not (eqb_ℤ (lib.atoi s) (pos 0)))
  parse string_attr s = text s

  -- ADD_ATTR_*: with skip_defaults a member is left out that is as in the default struct.
  unfoldable pub is_skipped : Bool → Struct → Struct → Field → Bool
  is_skipped skip dflt s f = skip && same_value (s f.member) (dflt f.member)

  unfoldable pub add_attr : Bool → Struct → Struct → Field → lib.Node → lib.Node
  unfolding is_skipped
  add_attr skip dflt s f ne =
      if is_skipped skip dflt s f then ne else lib.new_prop f.attr (print f.kind (s f.member)) ne

  unfoldable pub write : Bool → Struct → List Field → Struct → lib.Node → lib.Node
  write skip dflt [] s ne = ne
  write skip dflt (f ∷ fs) s ne = write skip dflt fs s (add_attr skip dflt s f ne)

  unfoldable pub set : Text → Value → Struct → Struct
  set m v s n = if text_eq m n then v else s n

  -- GET_ATTR_*
  unfoldable pub get_attr : lib.Node → Field → Struct → Struct
  unfolding set
  get_attr node f s = elim (lib.get_prop f.attr node) [
    | none ↦ s
    | some tmp ↦ set f.member (parse f.kind tmp) s
  ]

  unfoldable pub read : List Field → lib.Node → Struct → Struct
  read [] node s = s
  read (f ∷ fs) node s = read fs node (get_attr node f s)
