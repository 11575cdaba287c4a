-- ===== src/ProgPow/Header.antt =====
-- libprogpow/ProgPow.cpp: the fixed text around the random program.
use Prim.Native.String.{String}
use prog_po_w_miner.Common.{ℕ, ◌/◌, ◌*◌, List, [], ◌∷◌}
use prog_po_w_miner.Common.Text.{to_string}
use prog_po_w_miner.ProgPow.Shuffle.{regs}

pub data Kernel : Type 0 where
  cuda cl : Kernel

abbrev pub lanes : ℕ
lanes = 16

abbrev pub dag_loads : ℕ
dag_loads = 4

abbrev pub cache_bytes : ℕ
cache_bytes = 16 * 1024

abbrev pub cnt_dag : ℕ
cnt_dag = 128

abbrev pub cnt_cache : ℕ
cnt_cache = 11

abbrev pub cnt_math : ℕ
cnt_math = 20

-- The pieces written, in order.
unfoldable pub preamble : Kernel → List String
preamble cuda =
    "typedef unsigned int       uint32_t;\n" ∷ "typedef unsigned long long uint64_t;\n"
    ∷ "#define ROTL32(x,n) __funnelshift_l((x), (x), (n))\n"
    ∷ "#define ROTR32(x,n) __funnelshift_r((x), (x), (n))\n" ∷ "#define min(a,b) ((a<b) ? a : b)\n"
    ∷ "#define mul_hi(a, b) __umulhi(a, b)\n" ∷ "#define clz(a) __clz(a)\n"
    ∷ "#define popcount(a) __popc(a)\n" ∷ "\n" ∷ []
preamble cl =
    "#ifndef GROUP_SIZE\n"
    ∷ "#define GROUP_SIZE 128\n"
    ∷ "#endif\n"
    ∷ "#define GROUP_SHARE (GROUP_SIZE / "
    ∷ to_string lanes
    ∷ ")\n"
    ∷ "\n"
    ∷ "typedef unsigned int       uint32_t;\n"
    ∷ "typedef unsigned long      uint64_t;\n"
    ∷ "#define ROTL32(x, n) rotate((x), (uint32_t)(n))\n"
    ∷ "#define ROTR32(x, n) rotate((x), (uint32_t)(32-n))\n"
    ∷ "\n"
    ∷ []

unfoldable pub defines : List String
defines =
    "#define PROGPOW_LANES           "
    ∷ to_string lanes
    ∷ "\n"
    ∷ "#define PROGPOW_REGS            "
    ∷ to_string regs
    ∷ "\n"
    ∷ "#define PROGPOW_DAG_LOADS       "
    ∷ to_string dag_loads
    ∷ "\n"
    ∷ "#define PROGPOW_CACHE_WORDS     "
    ∷ to_string (cache_bytes / 4)
    ∷ "\n"
    ∷ "#define PROGPOW_CNT_DAG         "
    ∷ to_string cnt_dag
    ∷ "\n"
    ∷ "#define PROGPOW_CNT_MATH        "
    ∷ to_string cnt_math
    ∷ "\n"
    ∷ "\n"
    ∷ []

unfoldable pub loop_head : Kernel → ℕ → List String
loop_head cuda prog_seed =
    "typedef struct __align__(PROGPOW_DAG_LOADS * 4) {uint32_t s[PROGPOW_DAG_LOADS];} dag_t;\n"
    ∷ "\n"
    ∷ "// Inner loop for prog_seed "
    ∷ to_string prog_seed
    ∷ "\n"
    ∷ "__device__ __forceinline__ void progPowLoop(const uint32_t loop,\n"
    ∷ "        uint32_t mix[PROGPOW_REGS],\n"
    ∷ "        const dag_t *g_dag,\n"
    ∷ "        const uint32_t c_dag[PROGPOW_CACHE_WORDS],\n"
    ∷ "        const bool hack_false)\n"
    ∷ "{\n"
    ∷ "dag_t data_dag;\n"
    ∷ "uint32_t offset, data;\n"
    ∷ "const uint32_t lane_id = threadIdx.x & (PROGPOW_LANES-1);\n"
    ∷ "// global load\n"
    ∷ "offset = __shfl_sync(0xFFFFFFFF, mix[0], loop%PROGPOW_LANES, PROGPOW_LANES);\n"
    ∷ "offset %= PROGPOW_DAG_ELEMENTS;\n"
    ∷ "offset = offset * PROGPOW_LANES + (lane_id ^ loop) % PROGPOW_LANES;\n"
    ∷ "data_dag = g_dag[offset];\n"
    ∷ "// hack to prevent compiler from reordering LD and usage\n"
    ∷ "if (hack_false) __threadfence_block();\n"
    ∷ []
loop_head cl prog_seed =
    "typedef struct __attribute__ ((aligned (PROGPOW_DAG_LOADS * 4))) {uint32_t s[PROGPOW_DAG_LOADS];} dag_t;\n"
    ∷ "\n"
    ∷ "// Inner loop for prog_seed "
    ∷ to_string prog_seed
    ∷ "\n"
    ∷ "void progPowLoop(const uint32_t loop,\n"
    ∷ "        uint32_t mix[PROGPOW_REGS],\n"
    ∷ "        __global const dag_t *g_dag,\n"
    ∷ "        __local const uint32_t c_dag[PROGPOW_CACHE_WORDS],\n"
    ∷ "        __local uint64_t share[GROUP_SHARE],\n"
    ∷ "        const bool hack_false)\n"
    ∷ "{\n"
    ∷ "dag_t data_dag;\n"
    ∷ "uint32_t offset, data;\n"
    ∷ "const uint32_t lane_id = get_local_id(0) & (PROGPOW_LANES-1);\n"
    ∷ "const uint32_t group_id = get_local_id(0) / PROGPOW_LANES;\n"
    ∷ "// global load\n"
    ∷ "if(lane_id == (loop % PROGPOW_LANES))\n"
    ∷ "    share[group_id] = mix[0];\n"
    ∷ "barrier(CLK_LOCAL_MEM_FENCE);\n"
    ∷ "offset = share[group_id];\n"
    ∷ "offset %= PROGPOW_DAG_ELEMENTS;\n"
    ∷ "offset = offset * PROGPOW_LANES + (lane_id ^ loop) % PROGPOW_LANES;\n"
    ∷ "data_dag = g_dag[offset];\n"
    ∷ "// hack to prevent compiler from reordering LD and usage\n"
    ∷ "if (hack_false) barrier(CLK_LOCAL_MEM_FENCE);\n"
    ∷ []

unfoldable pub consume_head : Kernel → List String
consume_head cuda =
    "// consume global load data\n" ∷ "// hack to prevent compiler from reordering LD and usage\n"
    ∷ "if (hack_false) __threadfence_block();\n" ∷ []
consume_head cl =
    "// consume global load data\n" ∷ "// hack to prevent compiler from reordering LD and usage\n"
    ∷ "if (hack_false) barrier(CLK_LOCAL_MEM_FENCE);\n" ∷ []
