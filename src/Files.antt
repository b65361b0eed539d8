-- ===== src/Files.antt =====
-- What the offline tools ask of the operating system: files, directories, archives and commands. A
-- program is a tree that makes a request and goes on with the answer, whatever the answer is. Closing a
-- file is left out, since its error is only logged.
pub mod Laws
use ovn_kubernetes_mcp.Prelude.{
  ℕ, Bool, true, false, List, [], ◌∷◌, Option, String, Error, Result, ok, err, wrap, wrapf,
}
use ovn_kubernetes_mcp.Text.{Text}
use ovn_kubernetes_mcp.Exec.{Context}

-- `os.Stat`: whether there is a directory or another file, an error for which `os.IsNotExist` holds, or
-- another error.
pub data Stat : Type 0 where
  found : Bool → Stat
  missing : Error → Stat
  unknown : Error → Stat

-- `os.DirEntry`.
pub record DirEntry : Type 0 where
  pub name : Text
  pub is_dir : Bool

-- `header.Typeflag` and `header.Name` of `tar.Header`.
pub data TypeFlag : Type 0 where
  type_dir type_reg type_other : TypeFlag

pub record Header : Type 0 where
  pub type_flag : TypeFlag
  pub name : Text

-- What the calls of `tarReader.Next` return one after the other.
pub data Archive : Type 0 where
  eof : Archive
  broken : Error → Archive
  entry : Header → Archive → Archive

-- `CombinedOutput` of a command: its output, and its error if it fails.
pub record Outcome : Type 0 where
  pub output : Text
  pub error : Option Error

-- What a reader gives until its end or its error.
pub record Content : Type 0 where
  pub text : Text
  pub failure : Option Error

pub data Request : Type 0 where
  stat : Text → Request
  read_dir : Text → Request
  create_temp : Text → Text → Request
  remove : Text → Request
  remove_all : Text → Request
  open_file : Text → Request
  gunzip : Text → Request
  untar : Text → Request
  mkdir_all : Text → Request
  create_file : Text → Request
  copy_entry : Text → Request
  read_file : Text → Request
  read_all : Text → Request
  run_command : Context → Text → List Text → Request

abbrev pub Answer : Request → Type 0
Answer (stat path) = Stat
Answer (read_dir path) = Result (List DirEntry)
Answer (create_temp directory pattern) = Result Text
Answer (remove path) = Result (Unit {0})
Answer (remove_all path) = Result (Unit {0})
Answer (open_file path) = Result (Unit {0})
Answer (gunzip path) = Result (Unit {0})
Answer (untar path) = Result Archive
Answer (mkdir_all path) = Result (Unit {0})
Answer (create_file path) = Result (Unit {0})
Answer (copy_entry path) = Result (Unit {0})
Answer (read_file path) = Result Text
Answer (read_all path) = Content
Answer (run_command ctx command args) = Outcome

pub data Tree (A : Type 0) : Type 0 where
  leaf : A → Tree A
  ask : (r : Request) → (Answer r → Tree A) → Tree A

-- A program that may fail.
abbrev pub Program : Type 0 → Type 0
Program A = Tree (Result A)

infixl 5 ◌>>=◌ ◌>>◌
unfoldable pub ◌>>=◌ : {A B : Type 0} → Program A → (A → Program B) → Program B
leaf (ok a) >>= f = f a
leaf (err e) >>= f = leaf (err e)
ask r k >>= f = ask r (λ a. k a >>= f)

abbrev pub ◌>>◌ : {B : Type 0} → Program (Unit {0}) → Program B → Program B
m >> n = m >>= λ _. n

-- The answer of a request as a value, and a request whose error ends the program, wrapped.
abbrev pub asked : (r : Request) → Program (Answer r)
asked r = ask r (λ a. leaf (ok a))

abbrev pub wrapped : {A : Type 0} → String → List Text → Result A → Program A
wrapped format args a = leaf (wrap format args a)

unfoldable pub wrap_all : {A : Type 0} → String → List Text → Program A → Program A
wrap_all format args (leaf r) = leaf (wrap format args r)
wrap_all format args (ask r k) = ask r (λ a. wrap_all format args (k a))

-- A run against answers given in advance: its result, and the requests that it made.
module _ {A : Type 0} (answer : (r : Request) → Answer r) where
  unfoldable pub run : Tree A → A
  run (leaf a) = a
  run (ask r k) = run (k (answer r))

  unfoldable pub requests : Tree A → List Request
  requests (leaf a) = []
  requests (ask r k) = r ∷ requests (k (answer r))
