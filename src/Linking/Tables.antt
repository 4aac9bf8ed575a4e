-- ===== src/Linking/Tables.antt =====
-- linking/enforce.c: the lookups in the tables of the mapped file, and `enforce`. The sections are a
-- list; what a section holds as symbols or relocations is read through a function of the section,
-- strings are read from the file. Indices into the tables are in range.
pub mod Ends
use cs.Base.{
  is_same, until_nul, ℕ, zero, suc, ◌+◌, ◌-◌, ◌*◌, ◌/◌, ◌%◌, ◌^◌, Bool, true, false, not, ◌&&◌,
  List, [], ◌∷◌, map, Option, none, some, Bytes, codes, drop, get_or, ◌==◌, if◌then◌else◌,
}
use cs.Linking.Decode.{wrap}
use cs.Linking.Enforce.{Image, Result, done, and_then, check_function}

-- `Elf64_Shdr`
pub record Section : Type 0 where
  pub sh_name : ℕ
  pub sh_offset : ℕ
  pub sh_addr : ℕ

-- `Elf64_Sym`
pub record Symbol : Type 0 where
  pub st_name : ℕ
  pub st_info : ℕ
  pub st_shndx : ℕ
  pub st_value : ℕ
  pub st_size : ℕ

-- `Elf64_Rela`
pub record Relocation : Type 0 where
  pub r_offset : ℕ
  pub r_info : ℕ

-- The file as it was mapped, with its section headers and their contents. Names are read from it, so
-- no crash is taken to be written over a table. `unset` is that of `Image`.
pub record Elf : Type 0 where
  pub file : Bytes
  pub shdrs : List Section
  pub e_shstrndx : ℕ
  pub syms_of : Section → List Symbol
  pub unset : ℕ → ℕ
  pub relas_of : Section → List Relocation

abbrev pub no_section : Section
no_section = record { sh_name = 0; sh_offset = 0; sh_addr = 0 }

abbrev pub no_symbol : Symbol
no_symbol = record { st_name = 0; st_info = 0; st_shndx = 0; st_value = 0; st_size = 0 }

-- the string at a place of the file
pub string_at : Elf → ℕ → Bytes
string_at e p = until_nul (drop p e.file)

pub shdr_at : Elf → ℕ → Section
shdr_at e i = get_or e.shdrs i no_section

-- the loop over the sections, with the first of all for a name that is not there
pub find_named : (Section → Bytes) → Bytes → Section → List Section → Section
find_named name_of section_name first [] = first
find_named name_of section_name first (s ∷ shdrs) =
    let later = find_named name_of section_name first shdrs in
    if is_same (name_of s) section_name then s else later

unfoldable pub find_section : Elf → Bytes → Section
unfolding string_at shdr_at find_named
find_section e section_name =
    let strs = (shdr_at e e.e_shstrndx).sh_offset in
    find_named (λ s. string_at e (strs + s.sh_name)) section_name (shdr_at e 0) e.shdrs

-- a name of `.dynstr`
pub symbol_name : Elf → Symbol → Bytes
unfolding find_section string_at
symbol_name e s = string_at e ((find_section e (codes ".dynstr")).sh_offset + s.st_name)

-- the symbols of `.dynsym`
unfoldable pub dynsym : Elf → List Symbol
unfolding find_section
dynsym e = e.syms_of (find_section e (codes ".dynsym"))

-- `AT_SEC(ehdr, shdrs + j) + (st_value - shdrs[j].sh_addr)`
unfoldable pub code_place : Elf → Symbol → ℕ
unfolding shdr_at
code_place e s =
    let shdr = shdr_at e s.st_shndx in wrap (shdr.sh_offset + s.st_value + (2 ^ 64 - shdr.sh_addr))

pub find_symbol : (Symbol → Bytes) → Bytes → Symbol → List Symbol → Symbol
find_symbol name_of function_name first [] = first
find_symbol name_of function_name first (s ∷ syms) =
    let later = find_symbol name_of function_name first syms in
    if is_same (name_of s) function_name then s else later

unfoldable pub find_code : Elf → Bytes → ℕ
unfolding code_place symbol_name dynsym find_symbol
find_code e function_name =
    code_place e
      (find_symbol (symbol_name e) function_name (get_or (dynsym e) 0 no_symbol) (dynsym e))

-- a relocation with the name of its symbol; `ELF64_R_SYM` are the upper 32 bits
pub relocated : Elf → Relocation → ℕ × Bytes
unfolding symbol_name dynsym
relocated e r = (r.r_offset, symbol_name e (get_or (dynsym e) (r.r_info / 2 ^ 32) no_symbol))

-- what `check_function` and its lookups read from the tables
unfoldable pub image_of : Elf → Image
unfolding find_section string_at relocated
image_of e = record {
  accessed = map (relocated e) (e.relas_of (find_section e (codes ".rela.dyn")));
  called = map (relocated e) (e.relas_of (find_section e (codes ".rela.plt")));
  strs = string_at e ((find_section e (codes ".dynstr")).sh_offset);
  plt_code_ptr = (find_section e (codes ".plt")).sh_offset;
  plt_code_addr = (find_section e (codes ".plt")).sh_addr;
  unset = e.unset;
}

-- a symbol of a function with code; `ELF64_ST_TYPE` are the lower four bits, and `size`, an `int`, has
-- the lower 32 bits of `st_size`
abbrev pub is_function : Symbol → Bool
is_function s = s.st_info % 16 == 2 && not (s.st_size % 2 ^ 32 == 0)

-- the loop over the symbols
unfoldable pub enforce_symbols : Elf → (fuel : ℕ) → List Symbol → Bytes → Result Bytes
unfolding image_of code_place
enforce_symbols e fuel [] code = done code
enforce_symbols e fuel (s ∷ syms) code =
    let checked = check_function (image_of e) fuel 0 (code_place e s) s.st_value code in
    and_then (if is_function s then checked else done code) (enforce_symbols e fuel syms)

-- with the fuel of `check_function`
unfoldable pub enforce : Elf → (fuel : ℕ) → Bytes → Result Bytes
unfolding enforce_symbols dynsym
enforce e fuel code = enforce_symbols e fuel (dynsym e) code
