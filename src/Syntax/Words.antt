-- ===== src/Syntax/Words.antt =====
-- web/static/syntax.js: the keywords and built-in names of the languages.
use rivendell.Base.{String, List, [], ◌∷◌}

abbrev pub js_kw : List String
js_kw =
    "break" ∷ "case" ∷ "catch" ∷ "class" ∷ "const" ∷ "continue" ∷ "debugger" ∷ "default" ∷ "delete"
    ∷ "do" ∷ "else" ∷ "export" ∷ "extends" ∷ "finally" ∷ "for" ∷ "function" ∷ "if" ∷ "import" ∷ "in"
    ∷ "instanceof" ∷ "let" ∷ "new" ∷ "of" ∷ "return" ∷ "static" ∷ "super" ∷ "switch" ∷ "this"
    ∷ "throw" ∷ "try" ∷ "typeof" ∷ "var" ∷ "void" ∷ "while" ∷ "with" ∷ "yield" ∷ "async" ∷ "await"
    ∷ "from" ∷ "as" ∷ "abstract" ∷ "declare" ∷ "enum" ∷ "implements" ∷ "interface" ∷ "namespace"
    ∷ "override" ∷ "private" ∷ "protected" ∷ "public" ∷ "readonly" ∷ "type" ∷ "keyof" ∷ "infer"
    ∷ "satisfies" ∷ "null" ∷ "undefined" ∷ "true" ∷ "false" ∷ []

abbrev pub js_bi : List String
js_bi =
    "NaN" ∷ "Infinity" ∷ "globalThis" ∷ "console" ∷ "Math" ∷ "JSON" ∷ "Object" ∷ "Array" ∷ "String"
    ∷ "Number" ∷ "Boolean" ∷ "Symbol" ∷ "BigInt" ∷ "Promise" ∷ "Set" ∷ "Map" ∷ "WeakMap" ∷ "WeakSet"
    ∷ "Error" ∷ "TypeError" ∷ "RangeError" ∷ "ReferenceError" ∷ "SyntaxError" ∷ "Date" ∷ "RegExp"
    ∷ "Proxy" ∷ "Reflect" ∷ "parseInt" ∷ "parseFloat" ∷ "isNaN" ∷ "isFinite" ∷ "encodeURI"
    ∷ "decodeURI" ∷ "encodeURIComponent" ∷ "decodeURIComponent" ∷ "fetch" ∷ "setTimeout"
    ∷ "clearTimeout" ∷ "setInterval" ∷ "clearInterval" ∷ "queueMicrotask" ∷ "requestAnimationFrame"
    ∷ "document" ∷ "window" ∷ "navigator" ∷ "location" ∷ "history" ∷ "self" ∷ "globalThis"
    ∷ "process" ∷ "require" ∷ "module" ∷ "exports" ∷ "__dirname" ∷ "__filename" ∷ []

abbrev pub py_kw : List String
py_kw =
    "False" ∷ "None" ∷ "True" ∷ "and" ∷ "as" ∷ "assert" ∷ "async" ∷ "await" ∷ "break" ∷ "class"
    ∷ "continue" ∷ "def" ∷ "del" ∷ "elif" ∷ "else" ∷ "except" ∷ "finally" ∷ "for" ∷ "from"
    ∷ "global" ∷ "if" ∷ "import" ∷ "in" ∷ "is" ∷ "lambda" ∷ "nonlocal" ∷ "not" ∷ "or" ∷ "pass"
    ∷ "raise" ∷ "return" ∷ "try" ∷ "while" ∷ "with" ∷ "yield" ∷ []

abbrev pub py_bi : List String
py_bi =
    "abs" ∷ "all" ∷ "any" ∷ "bin" ∷ "bool" ∷ "bytes" ∷ "callable" ∷ "chr" ∷ "classmethod"
    ∷ "compile" ∷ "complex" ∷ "delattr" ∷ "dict" ∷ "dir" ∷ "divmod" ∷ "enumerate" ∷ "eval" ∷ "exec"
    ∷ "filter" ∷ "float" ∷ "format" ∷ "frozenset" ∷ "getattr" ∷ "globals" ∷ "hasattr" ∷ "hash"
    ∷ "help" ∷ "hex" ∷ "id" ∷ "input" ∷ "int" ∷ "isinstance" ∷ "issubclass" ∷ "iter" ∷ "len"
    ∷ "list" ∷ "locals" ∷ "map" ∷ "max" ∷ "memoryview" ∷ "min" ∷ "next" ∷ "object" ∷ "oct" ∷ "open"
    ∷ "ord" ∷ "pow" ∷ "print" ∷ "property" ∷ "range" ∷ "repr" ∷ "reversed" ∷ "round" ∷ "set"
    ∷ "setattr" ∷ "slice" ∷ "sorted" ∷ "staticmethod" ∷ "str" ∷ "sum" ∷ "super" ∷ "tuple" ∷ "type"
    ∷ "vars" ∷ "zip" ∷ "NotImplemented" ∷ "Ellipsis" ∷ "__name__" ∷ "__file__" ∷ "__doc__"
    ∷ "__package__" ∷ "Exception" ∷ "ValueError" ∷ "TypeError" ∷ "KeyError" ∷ "IndexError"
    ∷ "AttributeError" ∷ "ImportError" ∷ "OSError" ∷ "IOError" ∷ "StopIteration" ∷ "GeneratorExit"
    ∷ "RuntimeError" ∷ "self" ∷ "cls" ∷ []

abbrev pub go_kw : List String
go_kw =
    "break" ∷ "case" ∷ "chan" ∷ "const" ∷ "continue" ∷ "default" ∷ "defer" ∷ "else" ∷ "fallthrough"
    ∷ "for" ∷ "func" ∷ "go" ∷ "goto" ∷ "if" ∷ "import" ∷ "interface" ∷ "map" ∷ "package" ∷ "range"
    ∷ "return" ∷ "select" ∷ "struct" ∷ "switch" ∷ "type" ∷ "var" ∷ "nil" ∷ "true" ∷ "false" ∷ "iota"
    ∷ []

abbrev pub go_bi : List String
go_bi =
    "any" ∷ "bool" ∷ "byte" ∷ "complex64" ∷ "complex128" ∷ "comparable" ∷ "error" ∷ "float32"
    ∷ "float64" ∷ "int" ∷ "int8" ∷ "int16" ∷ "int32" ∷ "int64" ∷ "rune" ∷ "string" ∷ "uint"
    ∷ "uint8" ∷ "uint16" ∷ "uint32" ∷ "uint64" ∷ "uintptr" ∷ "append" ∷ "cap" ∷ "clear" ∷ "close"
    ∷ "copy" ∷ "delete" ∷ "len" ∷ "make" ∷ "max" ∷ "min" ∷ "new" ∷ "panic" ∷ "print" ∷ "println"
    ∷ "real" ∷ "recover" ∷ "imag" ∷ "complex" ∷ []

abbrev pub rust_kw : List String
rust_kw =
    "as" ∷ "async" ∷ "await" ∷ "break" ∷ "const" ∷ "continue" ∷ "crate" ∷ "dyn" ∷ "else" ∷ "enum"
    ∷ "extern" ∷ "false" ∷ "fn" ∷ "for" ∷ "if" ∷ "impl" ∷ "in" ∷ "let" ∷ "loop" ∷ "match" ∷ "mod"
    ∷ "move" ∷ "mut" ∷ "pub" ∷ "ref" ∷ "return" ∷ "self" ∷ "Self" ∷ "static" ∷ "struct" ∷ "super"
    ∷ "trait" ∷ "true" ∷ "type" ∷ "unsafe" ∷ "use" ∷ "where" ∷ "while" ∷ "macro_rules" ∷ "yield"
    ∷ []

abbrev pub rust_bi : List String
rust_bi =
    "bool" ∷ "char" ∷ "f32" ∷ "f64" ∷ "i8" ∷ "i16" ∷ "i32" ∷ "i64" ∷ "i128" ∷ "isize" ∷ "u8" ∷ "u16"
    ∷ "u32" ∷ "u64" ∷ "u128" ∷ "usize" ∷ "str" ∷ "String" ∷ "Vec" ∷ "Option" ∷ "Result" ∷ "Some"
    ∷ "None" ∷ "Ok" ∷ "Err" ∷ "Box" ∷ "Rc" ∷ "Arc" ∷ "Cell" ∷ "RefCell" ∷ "Mutex" ∷ "RwLock"
    ∷ "Drop" ∷ "Clone" ∷ "Copy" ∷ "Debug" ∷ "Display" ∷ "Default" ∷ "Send" ∷ "Sync" ∷ "Iterator"
    ∷ "IntoIterator" ∷ "From" ∷ "Into" ∷ "AsRef" ∷ "AsMut" ∷ "PartialEq" ∷ "Eq" ∷ "PartialOrd"
    ∷ "Ord" ∷ "Hash" ∷ "println" ∷ "print" ∷ "eprintln" ∷ "eprint" ∷ "format" ∷ "panic" ∷ "assert"
    ∷ "assert_eq" ∷ "assert_ne" ∷ "todo" ∷ "unimplemented" ∷ "unreachable" ∷ "dbg" ∷ "vec" ∷ "write"
    ∷ "writeln" ∷ []

abbrev pub java_kw : List String
java_kw =
    "abstract" ∷ "assert" ∷ "boolean" ∷ "break" ∷ "byte" ∷ "case" ∷ "catch" ∷ "char" ∷ "class"
    ∷ "const" ∷ "continue" ∷ "default" ∷ "do" ∷ "double" ∷ "else" ∷ "enum" ∷ "extends" ∷ "final"
    ∷ "finally" ∷ "float" ∷ "for" ∷ "goto" ∷ "if" ∷ "implements" ∷ "import" ∷ "instanceof" ∷ "int"
    ∷ "interface" ∷ "long" ∷ "native" ∷ "new" ∷ "package" ∷ "private" ∷ "protected" ∷ "public"
    ∷ "return" ∷ "short" ∷ "static" ∷ "strictfp" ∷ "super" ∷ "switch" ∷ "synchronized" ∷ "this"
    ∷ "throw" ∷ "throws" ∷ "transient" ∷ "try" ∷ "var" ∷ "void" ∷ "volatile" ∷ "while" ∷ "record"
    ∷ "sealed" ∷ "permits" ∷ "true" ∷ "false" ∷ "null" ∷ []

abbrev pub java_bi : List String
java_bi =
    "String" ∷ "Integer" ∷ "Long" ∷ "Double" ∷ "Float" ∷ "Boolean" ∷ "Byte" ∷ "Short" ∷ "Character"
    ∷ "Object" ∷ "Class" ∷ "Math" ∷ "System" ∷ "Runtime" ∷ "StringBuilder" ∷ "StringBuffer" ∷ "List"
    ∷ "ArrayList" ∷ "LinkedList" ∷ "Map" ∷ "HashMap" ∷ "TreeMap" ∷ "Set" ∷ "HashSet" ∷ "TreeSet"
    ∷ "Optional" ∷ "Stream" ∷ "Collectors" ∷ "Arrays" ∷ "Collections" ∷ "Thread" ∷ "Runnable"
    ∷ "Exception" ∷ "RuntimeException" ∷ "IllegalArgumentException" ∷ "NullPointerException"
    ∷ "Override" ∷ "SuppressWarnings" ∷ "Deprecated" ∷ "FunctionalInterface" ∷ "Override" ∷ []

abbrev pub c_kw : List String
c_kw =
    "auto" ∷ "break" ∷ "case" ∷ "char" ∷ "const" ∷ "continue" ∷ "default" ∷ "do" ∷ "double" ∷ "else"
    ∷ "enum" ∷ "extern" ∷ "float" ∷ "for" ∷ "goto" ∷ "if" ∷ "inline" ∷ "int" ∷ "long" ∷ "register"
    ∷ "restrict" ∷ "return" ∷ "short" ∷ "signed" ∷ "sizeof" ∷ "static" ∷ "struct" ∷ "switch"
    ∷ "typedef" ∷ "union" ∷ "unsigned" ∷ "void" ∷ "volatile" ∷ "while" ∷ "class" ∷ "delete" ∷ "new"
    ∷ "namespace" ∷ "template" ∷ "typename" ∷ "virtual" ∷ "override" ∷ "final" ∷ "public"
    ∷ "protected" ∷ "private" ∷ "explicit" ∷ "noexcept" ∷ "constexpr" ∷ "consteval" ∷ "constinit"
    ∷ "decltype" ∷ "using" ∷ "static_assert" ∷ "throw" ∷ "try" ∷ "catch" ∷ "operator" ∷ "friend"
    ∷ "mutable" ∷ "this" ∷ "nullptr" ∷ "true" ∷ "false" ∷ "NULL" ∷ "alignas" ∷ "alignof"
    ∷ "co_await" ∷ "co_return" ∷ "co_yield" ∷ "concept" ∷ "requires" ∷ "export" ∷ "import"
    ∷ "module" ∷ []

abbrev pub c_bi : List String
c_bi =
    "bool" ∷ "int8_t" ∷ "int16_t" ∷ "int32_t" ∷ "int64_t" ∷ "uint8_t" ∷ "uint16_t" ∷ "uint32_t"
    ∷ "uint64_t" ∷ "size_t" ∷ "ptrdiff_t" ∷ "intptr_t" ∷ "uintptr_t" ∷ "ssize_t" ∷ "FILE" ∷ "EOF"
    ∷ "stdin" ∷ "stdout" ∷ "stderr" ∷ "printf" ∷ "fprintf" ∷ "sprintf" ∷ "snprintf" ∷ "scanf"
    ∷ "fscanf" ∷ "sscanf" ∷ "malloc" ∷ "calloc" ∷ "realloc" ∷ "free" ∷ "memcpy" ∷ "memmove"
    ∷ "memset" ∷ "strlen" ∷ "strcpy" ∷ "strncpy" ∷ "strcmp" ∷ "strncmp" ∷ "strcat" ∷ "strncat"
    ∷ "fopen" ∷ "fclose" ∷ "fread" ∷ "fwrite" ∷ "fgets" ∷ "fputs" ∷ "assert" ∷ "static_assert"
    ∷ "std" ∷ "cout" ∷ "cin" ∷ "cerr" ∷ "endl" ∷ "string" ∷ "vector" ∷ "map" ∷ "set" ∷ "pair"
    ∷ "tuple" ∷ "shared_ptr" ∷ "unique_ptr" ∷ "make_shared" ∷ "make_unique" ∷ "move" ∷ "forward"
    ∷ "declval" ∷ []

abbrev pub ruby_kw : List String
ruby_kw =
    "BEGIN" ∷ "END" ∷ "alias" ∷ "and" ∷ "begin" ∷ "break" ∷ "case" ∷ "class" ∷ "def" ∷ "defined"
    ∷ "do" ∷ "else" ∷ "elsif" ∷ "end" ∷ "ensure" ∷ "false" ∷ "for" ∷ "if" ∷ "in" ∷ "module" ∷ "next"
    ∷ "nil" ∷ "not" ∷ "or" ∷ "redo" ∷ "rescue" ∷ "retry" ∷ "return" ∷ "self" ∷ "super" ∷ "then"
    ∷ "true" ∷ "undef" ∷ "unless" ∷ "until" ∷ "when" ∷ "while" ∷ "yield" ∷ "__callee__" ∷ "__dir__"
    ∷ "__method__" ∷ "__FILE__" ∷ "__LINE__" ∷ "__ENCODING__" ∷ []

abbrev pub ruby_bi : List String
ruby_bi =
    "puts" ∷ "print" ∷ "p" ∷ "pp" ∷ "gets" ∷ "require" ∷ "require_relative" ∷ "load" ∷ "raise"
    ∷ "fail" ∷ "warn" ∷ "exit" ∷ "abort" ∷ "sleep" ∷ "rand" ∷ "srand" ∷ "Integer" ∷ "Float"
    ∷ "String" ∷ "Array" ∷ "Hash" ∷ "Symbol" ∷ "Proc" ∷ "Lambda" ∷ "Kernel" ∷ "Object"
    ∷ "BasicObject" ∷ "Module" ∷ "Class" ∷ "Enumerable" ∷ "Comparable" ∷ "IO" ∷ "File" ∷ "Dir"
    ∷ "Pathname" ∷ "Time" ∷ "Range" ∷ "Regexp" ∷ "NilClass" ∷ "TrueClass" ∷ "FalseClass" ∷ "Numeric"
    ∷ "Integer" ∷ "Float" ∷ "attr_accessor" ∷ "attr_reader" ∷ "attr_writer" ∷ "include" ∷ "extend"
    ∷ "prepend" ∷ "private" ∷ "protected" ∷ "public" ∷ "initialize" ∷ "new" ∷ "send" ∷ "respond_to"
    ∷ []

abbrev pub perl_kw : List String
perl_kw =
    "BEGIN" ∷ "END" ∷ "CHECK" ∷ "INIT" ∷ "UNITCHECK" ∷ "if" ∷ "elsif" ∷ "else" ∷ "unless" ∷ "while"
    ∷ "until" ∷ "for" ∷ "foreach" ∷ "do" ∷ "last" ∷ "next" ∷ "redo" ∷ "return" ∷ "my" ∷ "our"
    ∷ "local" ∷ "sub" ∷ "package" ∷ "use" ∷ "require" ∷ "no" ∷ "and" ∷ "or" ∷ "not" ∷ "x" ∷ "eq"
    ∷ "ne" ∷ "lt" ∷ "gt" ∷ "le" ∷ "ge" ∷ "cmp" ∷ "defined" ∷ "undef" ∷ "wantarray" ∷ "bless" ∷ "ref"
    ∷ "scalar" ∷ "local" ∷ "tie" ∷ "untie" ∷ "eval" ∷ "die" ∷ "warn" ∷ "exit" ∷ "goto" ∷ "lock"
    ∷ "given" ∷ "when" ∷ "default" ∷ []

abbrev pub perl_bi : List String
perl_bi =
    "print" ∷ "say" ∷ "printf" ∷ "sprintf" ∷ "open" ∷ "close" ∷ "read" ∷ "write" ∷ "seek" ∷ "tell"
    ∷ "eof" ∷ "binmode" ∷ "sysread" ∷ "syswrite" ∷ "push" ∷ "pop" ∷ "shift" ∷ "unshift" ∷ "splice"
    ∷ "join" ∷ "split" ∷ "reverse" ∷ "sort" ∷ "map" ∷ "grep" ∷ "each" ∷ "keys" ∷ "values" ∷ "delete"
    ∷ "exists" ∷ "length" ∷ "substr" ∷ "index" ∷ "rindex" ∷ "chr" ∷ "ord" ∷ "lc" ∷ "uc" ∷ "lcfirst"
    ∷ "ucfirst" ∷ "chomp" ∷ "chop" ∷ "chdir" ∷ "mkdir" ∷ "rmdir" ∷ "rename" ∷ "unlink" ∷ "stat"
    ∷ "lstat" ∷ "chmod" ∷ "chown" ∷ "opendir" ∷ "readdir" ∷ "closedir" ∷ "glob" ∷ "system" ∷ "exec"
    ∷ "sleep" ∷ "time" ∷ "localtime" ∷ "gmtime" ∷ "abs" ∷ "int" ∷ "rand" ∷ "srand" ∷ "sqrt" ∷ "log"
    ∷ "exp" ∷ "sin" ∷ "cos" ∷ "atan2" ∷ "hex" ∷ "oct" ∷ "pos" ∷ "quotemeta" ∷ "reset" ∷ "scalar"
    ∷ "wantarray" ∷ "prototype" ∷ "STDIN" ∷ "STDOUT" ∷ "STDERR" ∷ "ARGV" ∷ "ENV" ∷ "INC" ∷ "ISA"
    ∷ "SIG" ∷ "DATA" ∷ "_" ∷ "__DATA__" ∷ "__END__" ∷ []

abbrev pub sql_kw : List String
sql_kw =
    "SELECT" ∷ "FROM" ∷ "WHERE" ∷ "JOIN" ∷ "LEFT" ∷ "RIGHT" ∷ "INNER" ∷ "OUTER" ∷ "CROSS" ∷ "FULL"
    ∷ "ON" ∷ "AND" ∷ "OR" ∷ "NOT" ∷ "AS" ∷ "GROUP" ∷ "BY" ∷ "ORDER" ∷ "HAVING" ∷ "LIMIT" ∷ "OFFSET"
    ∷ "INSERT" ∷ "INTO" ∷ "VALUES" ∷ "UPDATE" ∷ "SET" ∷ "DELETE" ∷ "CREATE" ∷ "TABLE" ∷ "INDEX"
    ∷ "DROP" ∷ "ALTER" ∷ "ADD" ∷ "COLUMN" ∷ "PRIMARY" ∷ "KEY" ∷ "FOREIGN" ∷ "REFERENCES" ∷ "UNIQUE"
    ∷ "DEFAULT" ∷ "NULL" ∷ "CHECK" ∷ "CONSTRAINT" ∷ "IS" ∷ "IN" ∷ "LIKE" ∷ "ILIKE" ∷ "BETWEEN"
    ∷ "EXISTS" ∷ "UNION" ∷ "ALL" ∷ "DISTINCT" ∷ "CASE" ∷ "WHEN" ∷ "THEN" ∷ "ELSE" ∷ "END" ∷ "BEGIN"
    ∷ "COMMIT" ∷ "ROLLBACK" ∷ "TRANSACTION" ∷ "SAVEPOINT" ∷ "WITH" ∷ "RETURNING" ∷ "IF" ∷ "DATABASE"
    ∷ "SCHEMA" ∷ "VIEW" ∷ "TRIGGER" ∷ "PROCEDURE" ∷ "FUNCTION" ∷ "RETURNS" ∷ "DECLARE" ∷ "DO"
    ∷ "LANGUAGE" ∷ "PLPGSQL" ∷ "INTEGER" ∷ "TEXT" ∷ "VARCHAR" ∷ "BOOLEAN" ∷ "TIMESTAMP" ∷ "DATE"
    ∷ "SERIAL" ∷ "BIGSERIAL" ∷ "JSON" ∷ "JSONB" ∷ "ARRAY" ∷ "TRUE" ∷ "FALSE" ∷ "ASC" ∷ "DESC"
    ∷ "NULLS" ∷ "FIRST" ∷ "LAST" ∷ "OVER" ∷ "PARTITION" ∷ "ROWS" ∷ "RANGE" ∷ "UNBOUNDED"
    ∷ "PRECEDING" ∷ "FOLLOWING" ∷ "CURRENT" ∷ "ROW" ∷ "WINDOW" ∷ "FILTER" ∷ "EXCLUDE" ∷ "LATERAL"
    ∷ "RECURSIVE" ∷ "MATERIALIZED" ∷ "CONCURRENTLY" ∷ "CASCADE" ∷ "RESTRICT" ∷ "NO" ∷ "ACTION"
    ∷ "DEFERRABLE" ∷ "DEFERRED" ∷ "IMMEDIATE" ∷ "TEMP" ∷ "TEMPORARY" ∷ "UNLOGGED" ∷ "LOGGED"
    ∷ "EXTENSION" ∷ "SCHEMA" ∷ "GRANT" ∷ "REVOKE" ∷ "PRIVILEGES" ∷ "TO" ∷ "FROM" ∷ "PUBLIC" ∷ "ROLE"
    ∷ "USER" ∷ "PASSWORD" ∷ "OWNED" ∷ "BY" ∷ []

abbrev pub sh_kw : List String
sh_kw =
    "if" ∷ "then" ∷ "else" ∷ "elif" ∷ "fi" ∷ "for" ∷ "while" ∷ "do" ∷ "done" ∷ "case" ∷ "esac"
    ∷ "function" ∷ "in" ∷ "until" ∷ "select" ∷ "time" ∷ "coproc" ∷ "return" ∷ "break" ∷ "continue"
    ∷ "exit" ∷ "local" ∷ "export" ∷ "readonly" ∷ "declare" ∷ "typeset" ∷ "unset" ∷ "shift" ∷ "set"
    ∷ "eval" ∷ "exec" ∷ "source" ∷ "trap" ∷ "wait" ∷ "jobs" ∷ "kill" ∷ "echo" ∷ "printf" ∷ "read"
    ∷ "test" ∷ "true" ∷ "false" ∷ "null" ∷ []

abbrev pub css_kw : List String
css_kw =
    "important" ∷ "inherit" ∷ "initial" ∷ "unset" ∷ "revert" ∷ "none" ∷ "auto" ∷ "normal" ∷ "bold"
    ∷ "italic" ∷ "solid" ∷ "dashed" ∷ "dotted" ∷ "hidden" ∷ "visible" ∷ "flex" ∷ "grid" ∷ "block"
    ∷ "inline" ∷ "absolute" ∷ "relative" ∷ "fixed" ∷ "sticky" ∷ "static" ∷ "transparent"
    ∷ "currentColor" ∷ "var" ∷ "calc" ∷ "min" ∷ "max" ∷ "clamp" ∷ "rgb" ∷ "rgba" ∷ "hsl" ∷ "hsla"
    ∷ "linear-gradient" ∷ "radial-gradient" ∷ "conic-gradient" ∷ "url" ∷ []

abbrev pub css_units : List String
css_units =
    "px" ∷ "em" ∷ "rem" ∷ "vh" ∷ "vw" ∷ "vmin" ∷ "vmax" ∷ "%" ∷ "s" ∷ "ms" ∷ "deg" ∷ "rad" ∷ "fr"
    ∷ "ch" ∷ "ex" ∷ "cm" ∷ "mm" ∷ "in" ∷ "pt" ∷ "pc" ∷ []
