-- ===== src/Arch/Cpu.antt =====
-- arch/x86_64/cpu.c, `get_cpu_capabilities`: what the processor says of itself. The instruction is an
-- argument: the four registers it gives for each number.
use h0r_net.Common.{ℕ, ◌/◌, ◌%◌, ◌^◌, List, [], ◌∷◌, ◌++◌, set}

pub record Cpuid : Type 0 where
  pub eax : ℕ
  pub ebx : ℕ
  pub ecx : ℕ
  pub edx : ℕ

pub record CpuInfo : Type 0 where
  pub vendor : List ℕ
  pub brand_string : List ℕ
  pub family : ℕ
  pub model : ℕ
  pub stepping : ℕ
  pub ext_family : ℕ
  pub ext_model : ℕ
  pub features : List ℕ

-- `memcpy` of a register: its four bytes, the lowest first.
abbrev pub register_bytes : ℕ → List ℕ
register_bytes r = r % 256 ∷ r / 256 % 256 ∷ r / 2 ^ 16 % 256 ∷ r / 2 ^ 24 % 256 ∷ []

abbrev pub brand_bytes : Cpuid → List ℕ
brand_bytes r =
    register_bytes r.eax ++ register_bytes r.ebx ++ register_bytes r.ecx ++ register_bytes r.edx

unfoldable pub get_cpu_capabilities : (ℕ → Cpuid) → CpuInfo → CpuInfo
get_cpu_capabilities cpuid info =
    let v = cpuid 0 in
    let sig = cpuid 1 in
    record {
      vendor = register_bytes v.ebx ++ register_bytes v.edx ++ register_bytes v.ecx ++ (0 ∷ []);
      brand_string =
          brand_bytes (cpuid 0x80000002)
          ++ brand_bytes (cpuid 0x80000003)
          ++ brand_bytes (cpuid 0x80000004)
          ++ (0 ∷ []);
      family = sig.eax / 2 ^ 8 % 16;
      model = sig.eax / 2 ^ 4 % 16;
      stepping = sig.eax % 16;
      ext_family = sig.eax / 2 ^ 20 % 256;
      ext_model = sig.eax / 2 ^ 16 % 16;
      features = set (set info.features 0 sig.edx) 1 sig.ecx;
    }
