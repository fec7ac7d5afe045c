-- ===== src/Parsers/Options.antt =====
-- What the parsers use of boost::program_options, and of boost::filesystem: a parameter.
use colony_fs.Base.{String, List, Bool, true, false, Option, none, some}
use colony_fs.Base.Int.{ℤ}
use colony_fs.Base.Key.{string_key}
use colony_fs.Base.Map.{Map, find}
use colony_fs.Base.Outcome.{Outcome}

-- `value<std::string>`, `value<std::vector<std::string> >` and `value<boost::int32_t>`
pub data Kind : Type 0 where
  one_text many_texts number : Kind

-- An entry of `options_description`.
pub record Declared : Type 0 where
  pub name : String
  pub kind : Kind

pub data Setting : Type 0 where
  of_text : String → Setting
  of_texts : List String → Setting
  of_number : ℤ → Setting

-- `variables_map`
abbrev pub Variables : Type 0
Variables = Map String Setting

abbrev is_some : Option Setting → Bool
is_some none = false
is_some (some v) = true

-- `vm.count(name)`, which is 0 or 1
unfoldable pub count : String → Variables → Bool
unfolding find
count name vm = is_some (find name vm)

-- Whether the file is there, and `store(parse_config_file(...))`: the variables that a file sets,
-- or what the library throws at an unknown option or at a value of another kind.
pub record ConfigFiles : Type 0 where
  pub exists : String → Bool
  pub store : List Declared → String → Outcome Variables

-- What `notify` writes to the variable of an option: a variable whose option is not set keeps its
-- value.
abbrev pub text_of : Option Setting → String → String
text_of (some (of_text s)) old = s
text_of v old = old

abbrev pub texts_of : Option Setting → List String → List String
texts_of (some (of_texts s)) old = s
texts_of v old = old

abbrev pub number_of : Option Setting → Option ℤ → Option ℤ
number_of (some (of_number n)) old = some n
number_of v old = old
