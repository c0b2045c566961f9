-- ===== src/Compat/Categories.antt =====
-- The categories of src/compat/compat.c and the rules that give an import its category.
use fantastic_octo_meme.Prelude.{
  ℕ, Bool, true, false, ◌&&◌, ◌||◌, List, [], ◌∷◌, get_or, ◌==◌, Option, none, some, if◌then◌else◌,
}
use fantastic_octo_meme.Memory.{Bytes}
use fantastic_octo_meme.Text.{codes}
use fantastic_octo_meme.Workspace.{starts_ci}

-- The categories in the order of `cellar_compat_category_t`, and `CELLAR_CAT_COUNT`.
abbrev pub cat_graphics : ℕ
cat_graphics = 0

abbrev pub cat_audio : ℕ
cat_audio = 1

abbrev pub cat_input : ℕ
cat_input = 2

abbrev pub cat_networking : ℕ
cat_networking = 3

abbrev pub cat_filesystem : ℕ
cat_filesystem = 4

abbrev pub cat_threading : ℕ
cat_threading = 5

abbrev pub cat_system : ℕ
cat_system = 6

abbrev pub cat_count : ℕ
cat_count = 7

abbrev pub category_name : ℕ → Bytes
category_name c =
    get_or
      (codes "Graphics"
        ∷ codes "Audio"
        ∷ codes "Input"
        ∷ codes "Networking"
        ∷ codes "Filesystem"
        ∷ codes "Threading"
        ∷ codes "Windows APIs"
        ∷ [])
      c (codes "?")

abbrev pub gfx_dlls : List Bytes
gfx_dlls =
    codes "d3d12"
    ∷ codes "d3d11"
    ∷ codes "d3d10"
    ∷ codes "d3d9"
    ∷ codes "d3d8"
    ∷ codes "d3dx"
    ∷ codes "dxgi"
    ∷ codes "ddraw"
    ∷ codes "opengl32"
    ∷ codes "glu32"
    ∷ codes "vulkan"
    ∷ codes "gdi32"
    ∷ codes "dwmapi"
    ∷ codes "d3dcompiler"
    ∷ codes "dwrite"
    ∷ codes "d2d1"
    ∷ []

abbrev pub audio_dlls : List Bytes
audio_dlls =
    codes "winmm"
    ∷ codes "dsound"
    ∷ codes "xaudio2"
    ∷ codes "mmdevapi"
    ∷ codes "avrt"
    ∷ codes "msacm32"
    ∷ []

abbrev pub input_dlls : List Bytes
input_dlls = codes "dinput8" ∷ codes "dinput" ∷ codes "xinput" ∷ codes "wininput" ∷ []

abbrev pub net_dlls : List Bytes
net_dlls =
    codes "ws2_32"
    ∷ codes "wsock32"
    ∷ codes "wininet"
    ∷ codes "winhttp"
    ∷ codes "iphlpapi"
    ∷ codes "dnsapi"
    ∷ codes "secur32"
    ∷ codes "schannel"
    ∷ codes "credui"
    ∷ []

abbrev pub sys_dlls : List Bytes
sys_dlls =
    codes "user32"
    ∷ codes "ntdll"
    ∷ codes "comctl32"
    ∷ codes "comdlg32"
    ∷ codes "ole32"
    ∷ codes "oleaut32"
    ∷ codes "uxtheme"
    ∷ codes "imm32"
    ∷ codes "setupapi"
    ∷ codes "crypt32"
    ∷ codes "bcrypt"
    ∷ codes "winspool"
    ∷ codes "propsys"
    ∷ codes "shcore"
    ∷ codes "advapi32"
    ∷ codes "shell32"
    ∷ codes "shlwapi"
    ∷ codes "version"
    ∷ codes "combase"
    ∷ codes "windows.storage"
    ∷ []

abbrev pub fs_thread_dlls : List Bytes
fs_thread_dlls =
    codes "kernel32"
    ∷ codes "kernelbase"
    ∷ codes "msvcrt"
    ∷ codes "ucrtbase"
    ∷ codes "api-ms-win-crt-"
    ∷ codes "api-ms-win-core-file-"
    ∷ codes "api-ms-win-core-threadpool-"
    ∷ codes "api-ms-win-core-processthreads-"
    ∷ []

unfoldable pub prefix_match : Bytes → List Bytes → Bool
prefix_match dll [] = false
prefix_match dll (pre ∷ table) = starts_ci dll pre || prefix_match dll table

-- `strncmp(s, pat, strlen(pat)) == 0`, and `strstr(s, pat) != NULL`.
abbrev pub starts_with : Bytes → Bytes → Bool
starts_with s [] = true
starts_with [] (p ∷ pat) = false
starts_with (c ∷ s) (p ∷ pat) = c == p && starts_with s pat

unfoldable pub has_part : Bytes → Bytes → Bool
has_part [] pat = starts_with [] pat
has_part (c ∷ s) pat = starts_with (c ∷ s) pat || has_part s pat

abbrev pub has_any : Bytes → List Bytes → Bool
has_any fn [] = false
has_any fn (p ∷ ps) = has_part fn p || has_any fn ps

unfoldable pub is_thread_api : Bytes → Bool
unfolding has_part
is_thread_api fn = has_any fn (
    codes "Thread"
    ∷ codes "CriticalSection"
    ∷ codes "Semaphore"
    ∷ codes "WaitFor"
    ∷ codes "Mutex"
    ∷ codes "GetCurrent"
    ∷ codes "CreateProcess"
    ∷ codes "Sleep"
    ∷ codes "_beginthreadex"
    ∷ codes "EnterCritical"
    ∷ [])

unfoldable pub is_file_api : Bytes → Bool
unfolding has_part
is_file_api fn = has_any fn (
    codes "File"
    ∷ codes "MoveFile"
    ∷ codes "DeleteFile"
    ∷ codes "FindFirst"
    ∷ codes "GetFileAttributes"
    ∷ codes "GetTempPath"
    ∷ codes "GetCurrentDirectory"
    ∷ codes "SetCurrentDirectory"
    ∷ codes "GetFullPath"
    ∷ codes "GetDriveType"
    ∷ codes "ReadFile"
    ∷ codes "WriteFile"
    ∷ [])

-- The category of a function of the kernel's family.
abbrev pub kernel_category : Option Bytes → ℕ
kernel_category none = cat_system
kernel_category (some fn) =
    if is_thread_api fn
    then cat_threading
    else if is_file_api fn
    then cat_filesystem
    else cat_system

unfoldable pub classify : Bytes → Option Bytes → ℕ
unfolding prefix_match is_thread_api is_file_api
classify dll fn =
    if prefix_match dll gfx_dlls
    then cat_graphics
    else if prefix_match dll audio_dlls
    then cat_audio
    else if prefix_match dll input_dlls
    then cat_input
    else if prefix_match dll net_dlls
    then cat_networking
    else if prefix_match dll fs_thread_dlls
    then kernel_category fn
    else if prefix_match dll sys_dlls
    then cat_system
    else cat_count
