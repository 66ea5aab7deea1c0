-- ===== src/Feign/Syntax.antt =====
-- The parts of a trait that the macro reads, as syn parses them. A path is its identifiers. An attribute
-- holds what syn answers on its arguments: as a list of metas, as one text, and whether it has any.
use conreg.Prelude.{String, Bool, Option, List, [], ◌∷◌, false, ◌==◌, string_eq}

pub data Lit : Type 0 where
  str : String → Lit
  other : Lit

pub data Expr : Type 0 where
  lit : Lit → Expr
  other : Expr

pub data Meta : Type 0 where
  path : List String → Meta
  name_value : List String → Expr → Meta
  -- `headers("…", "…")`, where the arguments are texts
  list : List String → Option (List String) → Meta

pub record Attribute : Type 0 where
  pub path : List String
  pub metas : Option (List Meta)
  pub literal : Option String
  pub is_list : Bool

mutual
  pub data Ty : Type 0 where
    path : Segments → Ty
    tuple : Types → Ty
    other_type : Ty

  pub data Types : Type 0 where
    no_types : Types
    types : Ty → Types → Types

  pub data Segments : Type 0 where
    end : Segments
    segment : String → Arguments → Segments → Segments

  pub data Arguments : Type 0 where
    no_arguments : Arguments
    angle_bracketed : Generics → Arguments
    parenthesized : Arguments

  pub data Generics : Type 0 where
    no_generics : Generics
    type_argument : Ty → Generics → Generics
    other_argument : Generics → Generics

-- An argument: `self`, a name with its type, or another pattern.
pub data FnArg : Type 0 where
  receiver : FnArg
  typed : String → Ty → FnArg
  pattern_argument : Ty → FnArg

-- Without a return type, `output` is none.
pub record TraitItemFn : Type 0 where
  pub name : String
  pub attrs : List Attribute
  pub inputs : List FnArg
  pub output : Option Ty

-- `Path::is_ident`
abbrev pub is_ident : List String → String → Bool
is_ident [] name = false
is_ident (s ∷ []) name = s == name
is_ident (s ∷ t ∷ rest) name = false
