-- ===== src/Feign/Request.antt =====
-- The request that a generated method sends, and how it reads the response (`generate_request_building`,
-- `generate_response_parsing`). `parse_ident` is syn's reading of a text as an identifier.
use conreg.Prelude.{
  String, Bool, Option, none, some, List, [], ◌∷◌, ◌++◌, ◌==◌, string_eq, if◌then◌else◌,
}
use conreg.Feign.Analysis.{ParamAnalysis, Param}
use conreg.Feign.Syntax.{Ty, Types, Segments, Arguments, Generics}

pub data Method : Type 0 where
  get post put delete patch : Method

-- What `http_method` names; any other word asks for a GET.
unfoldable pub method_of : String → Method
method_of http_method =
    if http_method == "POST"
    then Method.post
    else if http_method == "PUT"
    then Method.put
    else if http_method == "DELETE"
    then Method.delete
    else if http_method == "PATCH"
    then Method.patch
    else Method.get

-- The calls on the request's builder, in their order. A header's value is a variable or a text.
pub data Call : Type 0 where
  header_of header : String → String → Call
  body json multipart : String → Call

module _ (parse_ident : String → Bool) where
  unfoldable pub header_calls : List (String × String) → List Call
  header_calls [] = []
  header_calls ((header_name, param_name) ∷ params) =
      let rest = header_calls params in
      (if parse_ident param_name
        then Call.header_of header_name param_name
        else Call.header header_name param_name)
      ∷ rest

  abbrev call_for : (String → Call) → Option Param → List Call
  call_for f none = []
  call_for f (some (name, ty)) = f name ∷ []

  abbrev first : List Param → Option Param
  first [] = none
  first (p ∷ params) = some p

  unfoldable pub request_calls : ParamAnalysis → List Call
  unfolding header_calls
  request_calls a =
      header_calls a.header_params
      ++ (call_for Call.body a.body_param
          ++ (call_for Call.json a.json_param ++ call_for Call.multipart (first a.form_params)))

pub data Parsing : Type 0 where
  unit text bytes status json : Parsing

abbrev last_segment : Segments → Option (String × Arguments)
last_segment Segments.end = none
last_segment (Segments.segment ident args Segments.end) = some (ident, args)
last_segment (Segments.segment ident args (Segments.segment next more rest)) =
    last_segment (Segments.segment next more rest)

-- The inner type of `Result<T, E>`, where the output is one.
abbrev inner_type : String × Arguments → Option Ty
inner_type (ident, Arguments.angle_bracketed (Generics.type_argument ty rest)) =
    if ident == "Result" then some ty else none
inner_type (ident, Arguments.angle_bracketed (Generics.other_argument rest)) = none
inner_type (ident, Arguments.angle_bracketed Generics.no_generics) = none
inner_type (ident, Arguments.no_arguments) = none
inner_type (ident, Arguments.parenthesized) = none

unfoldable pub parsing_of : Ty → Parsing
parsing_of (Ty.tuple Types.no_types) = Parsing.unit
parsing_of (Ty.tuple (Types.types ty rest)) = Parsing.json
parsing_of Ty.other_type = Parsing.json
parsing_of (Ty.path segments) = elim (last_segment segments) [
  | none ↦ Parsing.json
  | some (ident, args) ↦
      if ident == "String"
      then Parsing.text
      else if ident == "Bytes"
      then Parsing.bytes
      else if ident == "StatusCode"
      then Parsing.status
      else Parsing.json
]

unfoldable pub response_parsing : Option Ty → Parsing
unfolding parsing_of
response_parsing none = Parsing.unit
response_parsing (some (Ty.tuple elems)) = Parsing.json
response_parsing (some Ty.other_type) = Parsing.json
response_parsing (some (Ty.path segments)) = elim (last_segment segments) [
  | none ↦ Parsing.json
  | some last ↦ elim (inner_type last) [ none ↦ Parsing.json | some ty ↦ parsing_of ty ]
]
