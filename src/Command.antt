-- ===== src/Command.antt =====
-- gructl/command: the commands of gructl.  A command is a function of the client interface and of the
-- flags; what it comes to is the tables that it prints, or the error and the code at which it exits.
pub mod Pattern
pub mod Inspect
pub mod Results
pub mod Push
pub mod Report
pub mod Local
pub mod Draw
pub mod Main
use gru.Prelude.{
  ℕ, String, Bool, false, Option, none, some, List, [], ◌∷◌, ◌++◌, ◌==◌, if◌then◌else◌,
}
use gru.Errors.{Error, etcd, Result, ok, err, panic, no_minion, invalid_uuid}

-- What stands in a table: a text, a number or a time.
pub data Cell : Type 0 where
  text : String → Cell
  number time : ℕ → Cell

abbrev pub Row : Type 0
Row = List Cell

-- How a command, or a part of it, ends: with a value, by cli.NewExitError, or in a panic.
pub data Exit (A : Type 0) : Type 0 where
  done : A → Exit A
  exits : Error → ℕ → Exit A
  crashed : Exit A

-- A part of a command.
abbrev pub Act : Type 0 → Type 0 → Type 0
Act W A = W → Exit A × W

abbrev pub after : {W A B : Type 0} → (A → Act W B) → Exit A × W → Exit B × W
after f (done v, w) = f v w
after f (exits e code, w) = (exits e code, w)
after f (crashed, w) = (crashed, w)

infixl 5 ◌>>=◌
unfoldable pub ◌>>=◌ : {W A B : Type 0} → Act W A → (A → Act W B) → Act W B
◌>>=◌ a f w = after f (a w)

-- The flags of the commands, and their arguments.
pub record Flags : Type 0 where
  pub args : List String
  pub with_classifier : String
  pub environment : String
  pub minion : String
  pub details : Bool

-- The packages that the commands use: uuid.Parse, which is nil on what is no uuid, the random uuid
-- of a task, strings.SplitN, and regexp.Compile with MatchString.
pub record Cli (W : Type 0) : Type 0 where
  pub parse_uuid : String → Option String
  pub new_uuid : W → String × W
  pub split_n : String → String → ℕ → List String
  pub compile : String → Result (String → Bool)

-- What is made of the error that comes with a value.
unfoldable pub settle : {A : Type 0} → Result A → Exit A
settle (ok a) = done a
settle (err e) = exits e 1
settle panic = crashed

module _ {W A : Type 0} where
  unfoldable pub give : A → Act W A
  give a w = (done a, w)

  unfoldable pub exit_with : Error → ℕ → Act W A
  exit_with e code w = (exits e code, w)

  -- if err != nil { return cli.NewExitError(err.Error(), 1) }
  unfoldable pub try : (W → Result A × W) → Act W A
  unfolding settle
  try f w = let (r, w₁) = f w in (settle r, w₁)

-- err.(client.Error), with the code client.ErrorCodeKeyNotFound
unfoldable pub is_key_not_found : Error → Bool
is_key_not_found (etcd code) = code == 100
is_key_not_found _ = false

unfoldable pub settle_missing : {A : Type 0} → Result (List A) → Exit (List A)
unfolding is_key_not_found
settle_missing (ok xs) = done xs
settle_missing (err e) = if is_key_not_found e then done [] else exits e 1
settle_missing panic = crashed

module _ {W A : Type 0} where
  -- The same, where the error that the directory is missing is ignored: the value is nil then.
  unfoldable pub try_missing : (W → Result (List A) × W) → Act W (List A)
  unfolding settle_missing
  try_missing f w = let (r, w₁) = f w in (settle_missing r, w₁)

  -- A loop that ends at the first exit.
  unfoldable pub for_each : {B : Type 0} → (A → Act W (List B)) → List A → Act W (List B)
  for_each f [] = give []
  for_each f (x ∷ xs) = do ys ← f x; rest ← for_each f xs; give (ys ++ rest)

module _ {W : Type 0} where
  -- if len(c.Args()) == 0
  unfoldable pub first_of : Error → List String → Act W String
  unfolding exit_with give
  first_of e [] = exit_with e 64
  first_of e (arg ∷ _) = give arg

  unfoldable pub first_arg : Error → Flags → Act W String
  unfolding first_of
  first_arg e flags = first_of e flags.args

  -- if minion == nil
  unfoldable pub uuid_or_exit : Option String → Act W String
  unfolding exit_with give
  uuid_or_exit none = exit_with invalid_uuid 64
  uuid_or_exit (some u) = give u

  unfoldable pub parse : Cli W → String → Act W String
  unfolding uuid_or_exit
  parse cli arg = uuid_or_exit (cli.parse_uuid arg)

  -- The uuid of the minion that is the first argument.
  unfoldable pub minion_arg : Cli W → Flags → Act W String
  unfolding first_arg parse
  minion_arg cli flags = do arg ← first_arg no_minion flags; parse cli arg
