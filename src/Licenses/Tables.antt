-- ===== src/Licenses/Tables.antt =====
-- The tables of internal/licenses/licenses.go and internal/licenses/exceptions.go.
use pkgsite.Prelude.{List, [], ◌∷◌, Text, codes}

-- `FileNames`.
abbrev pub file_names : List Text
file_names =
    codes "COPYING"
    ∷ codes "COPYING.md"
    ∷ codes "COPYING.markdown"
    ∷ codes "COPYING.txt"
    ∷ codes "LICENCE"
    ∷ codes "LICENCE.md"
    ∷ codes "LICENCE.markdown"
    ∷ codes "LICENCE.txt"
    ∷ codes "LICENSE"
    ∷ codes "LICENSE.md"
    ∷ codes "LICENSE.markdown"
    ∷ codes "LICENSE.txt"
    ∷ codes "LICENSE-2.0.txt"
    ∷ codes "LICENCE-2.0.txt"
    ∷ codes "LICENSE-APACHE"
    ∷ codes "LICENCE-APACHE"
    ∷ codes "LICENSE-APACHE-2.0.txt"
    ∷ codes "LICENCE-APACHE-2.0.txt"
    ∷ codes "LICENSE-MIT"
    ∷ codes "LICENCE-MIT"
    ∷ codes "LICENSE.MIT"
    ∷ codes "LICENCE.MIT"
    ∷ codes "LICENSE.code"
    ∷ codes "LICENCE.code"
    ∷ codes "LICENSE.docs"
    ∷ codes "LICENCE.docs"
    ∷ codes "LICENSE.rst"
    ∷ codes "LICENCE.rst"
    ∷ codes "MIT-LICENSE"
    ∷ codes "MIT-LICENCE"
    ∷ codes "MIT-LICENSE.md"
    ∷ codes "MIT-LICENCE.md"
    ∷ codes "MIT-LICENSE.markdown"
    ∷ codes "MIT-LICENCE.markdown"
    ∷ codes "MIT-LICENSE.txt"
    ∷ codes "MIT-LICENCE.txt"
    ∷ codes "MIT_LICENSE"
    ∷ codes "MIT_LICENCE"
    ∷ codes "UNLICENSE"
    ∷ codes "UNLICENCE"
    ∷ []

-- `standardRedistributableLicenseTypes`.
abbrev pub standard_types : List Text
standard_types =
    codes "AFL-3.0"
    ∷ codes "AGPL-3.0"
    ∷ codes "AGPL-3.0-only"
    ∷ codes "AGPL-3.0-or-later"
    ∷ codes "Apache-1.1"
    ∷ codes "Apache-2.0"
    ∷ codes "Artistic-2.0"
    ∷ codes "BlueOak-1.0.0"
    ∷ codes "0BSD"
    ∷ codes "BSD-1-Clause"
    ∷ codes "BSD-2-Clause"
    ∷ codes "BSD-2-Clause-Patent"
    ∷ codes "BSD-2-Clause-Views"
    ∷ codes "BSD-3-Clause"
    ∷ codes "BSD-3-Clause-Clear"
    ∷ codes "BSD-3-Clause-LBNL"
    ∷ codes "BSD-3-Clause-Open-MPI"
    ∷ codes "BSD-4-Clause"
    ∷ codes "BSD-4-Clause-UC"
    ∷ codes "BSL-1.0"
    ∷ codes "CC-BY-3.0"
    ∷ codes "CC-BY-4.0"
    ∷ codes "CC-BY-SA-3.0"
    ∷ codes "CC-BY-SA-4.0"
    ∷ codes "CECILL-2.1"
    ∷ codes "CC0-1.0"
    ∷ codes "EPL-1.0"
    ∷ codes "EPL-2.0"
    ∷ codes "EUPL-1.2"
    ∷ codes "GPL-2.0"
    ∷ codes "GPL-2.0-only"
    ∷ codes "GPL-2.0-or-later"
    ∷ codes "GPL-3.0"
    ∷ codes "GPL-3.0-only"
    ∷ codes "GPL-3.0-or-later"
    ∷ codes "HPND"
    ∷ codes "ISC"
    ∷ codes "JSON"
    ∷ codes "LGPL-2.1"
    ∷ codes "LGPL-2.1-or-later"
    ∷ codes "LGPL-3.0"
    ∷ codes "LGPL-3.0-or-later"
    ∷ codes "MIT"
    ∷ codes "MIT-0"
    ∷ codes "MPL-2.0"
    ∷ codes "MPL-2.0-no-copyleft-exception"
    ∷ codes "MulanPSL-2.0"
    ∷ codes "NIST-PD"
    ∷ codes "NIST-PD-fallback"
    ∷ codes "NCSA"
    ∷ codes "OpenSSL"
    ∷ codes "OSL-3.0"
    ∷ codes "PostgreSQL"
    ∷ codes "Python-2.0"
    ∷ codes "Unlicense"
    ∷ codes "UPL-1.0"
    ∷ codes "Zlib"
    ∷ []

-- `ignorableLicenseTypes`.
abbrev pub ignorable_types : List Text
ignorable_types =
    codes "CC-Notice"
    ∷ codes "GooglePatentClause"
    ∷ codes "GooglePatentsFile"
    ∷ codes "blessing"
    ∷ codes "OFL-1.1"
    ∷ []

-- `ignoreFiles`: a module path and a file path, with a space between them.
abbrev pub ignore_files : List Text
ignore_files = codes "gioui.org COPYING" ∷ []
