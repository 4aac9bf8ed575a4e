-- ===== src/Tests/LinkingTables.antt =====
-- linking/enforce.c on a small library: one function, `open_it` in `.plt`, and the tables' strings.
use cs.Base.{◌^◌, ◌≡◌, refl, List, [], ◌∷◌, ◌++◌, Bytes, codes, ◌==◌, if◌then◌else◌}
use cs.Linking.Decode.{decode}
use cs.Linking.Crash.{replace_with_crash}
use cs.Linking.Enforce.{done, check_function}
use cs.Linking.Tables.{
  Section, Symbol, Relocation, Elf, find_section, find_code, code_place, image_of, dynsym,
  enforce_symbols, enforce,
}

-- a call of the place 8, where `jmp *(36 + 14)` stands, and a return in between
abbrev opens : Bytes
opens = 0xe8 ∷ 3 ∷ 0 ∷ 0 ∷ 0 ∷ 0xC3 ∷ 0 ∷ 0 ∷ 0xFF ∷ 0x25 ∷ 36 ∷ 0 ∷ 0 ∷ 0 ∷ []

abbrev strings : Bytes
strings =
    0 ∷ codes ".plt"
    ++ 0 ∷ codes ".dynstr"
    ++ 0 ∷ codes ".dynsym"
    ++ 0 ∷ codes ".rela.plt"
    ++ 0 ∷ codes "open_it"
    ++ 0 ∷ []

abbrev symbols : Section → List Symbol
symbols s =
    if s.sh_name == 14
    then record { st_name = 0; st_info = 18; st_shndx = 0; st_value = 0; st_size = 14 }
      ∷ record { st_name = 32; st_info = 18; st_shndx = 0; st_value = 0; st_size = 0 }
      ∷ []
    else []

abbrev relocations : Section → List Relocation
relocations s = if s.sh_name == 22 then record { r_offset = 50; r_info = 2 ^ 32 } ∷ [] else []

abbrev library : Elf
library = record {
  file = opens ++ strings;
  shdrs =
      record { sh_name = 0; sh_offset = 0; sh_addr = 0 }
      ∷ record { sh_name = 6; sh_offset = 14; sh_addr = 0 }
      ∷ record { sh_name = 1; sh_offset = 8; sh_addr = 8 }
      ∷ record { sh_name = 14; sh_offset = 0; sh_addr = 0 }
      ∷ record { sh_name = 22; sh_offset = 0; sh_addr = 0 }
      ∷ [];
  e_shstrndx = 1;
  syms_of = symbols;
  unset = λ p. 0;
  relas_of = relocations;
}

-- The function opens and returns, so its return is overwritten.
enforces :
    enforce library 60 (opens ++ strings)
    ≡ done ((0xe8 ∷ 3 ∷ 0 ∷ 0 ∷ 0 ∷ 0xCC ∷ 0 ∷ 0 ∷ 0xFF ∷ 0x25 ∷ 36 ∷ 0 ∷ 0 ∷ 0 ∷ []) ++ strings)
unfolding enforce enforce_symbols image_of code_place dynsym find_section check_function
    replace_with_crash decode
enforces = refl

finds_open : find_code library (codes "open_it") ≡ 0
unfolding find_code code_place dynsym find_section
finds_open = refl
